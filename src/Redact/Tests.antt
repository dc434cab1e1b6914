-- ===== src/Redact/Tests.antt =====
-- The redaction of a concrete URL.
use xrdcl_pelican.Prelude.{◌≡◌, refl, ◌∷◌, ◌++◌}
use xrdcl_pelican.Prelude.Bytes.{codes}
use xrdcl_pelican.Redact
use xrdcl_pelican.Redact.Secret.{obfuscate_auth_value}

obfuscate_auth_value_example :
    Redact.obfuscate_auth (
      codes "/a?"
      ++ (b'A' ∷ b'u' ∷ b't' ∷ b'h' ∷ b'z' ∷ b'=' ∷ (codes "e.J" ++ (b'&' ∷ codes "x"))))
    ≡ codes "/a?"
      ++ (b'A'
          ∷ b'u'
          ∷ b't'
          ∷ b'h'
          ∷ b'z'
          ∷ b'='
          ∷ (codes "REDACTED" ++ Redact.obfuscate_auth (b'&' ∷ codes "x")))
obfuscate_auth_value_example =
    obfuscate_auth_value (codes "/a?") b'A' b'u' b't' b'h' b'z' b'&' (codes "e.J") (codes "x")
      (refl, (refl, tt)) (refl, (refl, (refl, (refl, (refl, tt))))) (refl, (refl, (refl, tt))) refl
