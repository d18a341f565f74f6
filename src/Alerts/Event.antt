-- ===== src/Alerts/Event.antt =====
-- internal/alerts/fingerprint.go: events and the identity of an incident. The hash function of the
-- standard library is an argument; the code points of a text stand for its bytes.
pub mod Identity
use rabbot_seo.Base.{ℕ, String, Bool, List, ◌∷◌, ◌++◌, ◌<>◌, codes}
use rabbot_seo.Model.{Severity, severity_string}

pub record Event : Type 0 where
  pub site_id : ℕ
  pub site : String
  pub url : String
  pub url_id : ℕ
  pub change_type : String
  pub severity : Severity
  pub before : String
  pub after : String
  pub operational : Bool
  pub deep_link : String
  pub segments : List String

-- What `Fingerprint` writes into the hash, its fields closed by a zero byte.
unfoldable pub fingerprint_input : Event → List ℕ
fingerprint_input e =
    codes e.site
    ++ (0
        ∷ (codes e.url ++ (0 ∷ (codes e.change_type ++ (0 ∷ codes (severity_string e.severity))))))

unfoldable pub fingerprint : (List ℕ → String) → Event → String
unfolding fingerprint_input
fingerprint sha256_hex e = sha256_hex (fingerprint_input e)

abbrev pub group_key : String → String → String
group_key site change_type = site <> "|" <> change_type

unfoldable pub group_fingerprint : (List ℕ → String) → Event → String
unfolding fingerprint
group_fingerprint sha256_hex e = fingerprint sha256_hex (record e { url = "" })
