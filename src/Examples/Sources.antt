-- ===== src/Examples/Sources.antt =====
-- Domains and the keys that stand for them.
use csaf_trove.Base.{◌≡◌, refl}
use csaf_trove.Base.Text.{Text, bytes}
use csaf_trove.Sources.{
  strip_prefix, strip_scheme, write, trim_dashes, IsKey, sanitize_domain, sanitize_domain-IsKey,
}

abbrev url : Text
url = bytes "https://cert.example/csaf//v2:/"

url-key : sanitize_domain url ≡ bytes "cert.example-csaf-v2"
unfolding sanitize_domain strip_prefix strip_scheme write trim_dashes
url-key = refl

plain-key : sanitize_domain (bytes "redhat.com") ≡ bytes "redhat.com"
unfolding sanitize_domain strip_prefix strip_scheme write trim_dashes
plain-key = refl

-- Dashes of the domain itself are kept as they are.
dashes-key : sanitize_domain (bytes "a--b/-c") ≡ bytes "a--b--c"
unfolding sanitize_domain strip_prefix strip_scheme write trim_dashes
dashes-key = refl

sanitize_domain-IsKey_example :
    IsKey (sanitize_domain url) × (sanitize_domain (sanitize_domain url) ≡ sanitize_domain url)
sanitize_domain-IsKey_example = sanitize_domain-IsKey url
