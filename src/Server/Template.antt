-- ===== src/Server/Template.antt =====
-- server/template.go: the header that a template and a secret make.
use hasura_secret_refresh.Base.{◌≡◌, Option, List, [], ◌∷◌, ◌++◌}
use hasura_secret_refresh.Strings.{Text, codes, split, trim_space}
use hasura_secret_refresh.Strings.Split.{Lacks, split-Lacks, split-append, split-cons}
use hasura_secret_refresh.Value.{Object}
use hasura_secret_refresh.Result.{message, Result, ok, err}
use hasura_secret_refresh.Template.{substitute}

module _ (unmarshal : Text → Option Object) where
  header_of_parts : List Text → Text → Text → Result (Text × Text)
  header_of_parts (key ∷ val ∷ []) template secret =
      ok (trim_space key, substitute unmarshal (trim_space val) secret)
  header_of_parts _ template secret =
      err (message (codes "Header template " ++ (template ++ codes " is not valid")))

  -- getHeaderFromTemplate
  unfoldable pub header_from_template : Text → Text → Result (Text × Text)
  unfolding header_of_parts
  header_from_template template secret = header_of_parts (split template b':') template secret

  -- A template with one colon makes the header named by what stands before it, with the value that
  -- the template behind it gives for the secret; both sides are trimmed first.
  pub header_from_template-colon :
      (key val secret : Text)
      → Lacks b':' key
      → Lacks b':' val
      → header_from_template (key ++ b':' ∷ val) secret
        ≡ ok (trim_space key, substitute unmarshal (trim_space val) secret)
  unfolding header_from_template
  header_from_template-colon key val secret h k =
      rw (split-append key val b':' h, split-Lacks val b':' k)

  -- A template with no colon, or with two or more, is refused, whatever the secret.
  pub header_from_template-refused :
      (a b c secret : Text)
      → Lacks b':' a
      → Lacks b':' b
      → (header_from_template a secret
          ≡ err (message (codes "Header template " ++ (a ++ codes " is not valid"))))
        × (header_from_template (a ++ b':' ∷ (b ++ b':' ∷ c)) secret
            ≡ err (
                message (
                  codes "Header template "
                  ++ ((a ++ b':' ∷ (b ++ b':' ∷ c)) ++ codes " is not valid"))))
  unfolding header_from_template
  header_from_template-refused a b c secret h k =
      let (p, ps, e) = split-cons c b':' in
      (
        rw (split-Lacks a b':' h),
        rw (split-append a (b ++ b':' ∷ c) b':' h, split-append b c b':' k, e),
      )
