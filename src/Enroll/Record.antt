-- ===== src/Enroll/Record.antt =====
-- The JSON text of an enrollment, as `json.dumps` writes it with sorted keys and no spaces.
use clamp.Prelude.{ℕ, ◌++◌, ◌∷◌, String}
use clamp.Text.{Text, codes}
use clamp.Text.Decimal.{decimal}

pub record Enrollment : Type 0 where
  pub amp_device : ℕ
  pub amp_inode : ℕ
  pub amp_path : Text
  pub amp_sha256 : Text
  pub amp_size : ℕ
  pub amp_version : Text
  pub qualified_at : Text
  pub source_repository : Text
  pub target : Text

-- `"name":` with what stands in front of it.
abbrev named : String → String → Text → Text
named opening name shown = codes opening ++ (codes name ++ (b'"' ∷ b':' ∷ shown))

-- `quoted` is `json.dumps` of a text.
unfoldable pub record_text : (Text → Text) → Enrollment → Text
record_text quoted e =
    named "{\"" "amp_device" (decimal e.amp_device)
    ++ (named ",\"" "amp_inode" (decimal e.amp_inode)
        ++ (named ",\"" "amp_path" (quoted e.amp_path)
            ++ (named ",\"" "amp_sha256" (quoted e.amp_sha256)
                ++ (named ",\"" "amp_size" (decimal e.amp_size)
                    ++ (named ",\"" "amp_version" (quoted e.amp_version)
                        ++ (named ",\"" "qualified_at" (quoted e.qualified_at)
                            ++ (named ",\"" "schema_version" (decimal 1)
                                ++ (named ",\"" "source_repository" (quoted e.source_repository)
                                    ++ (named ",\"" "target" (quoted e.target)
                                        ++ codes "}\n")))))))))
