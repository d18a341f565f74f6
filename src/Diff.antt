-- ===== src/Diff.antt =====
-- internal/diff: what changed between two snapshots of a page (diff.go, simhash.go) or of a site file
-- (file.go). A snapshot has the fields that the comparison, the scheduler and the rules read.
pub mod Fields
use rabbot_seo.Base.{
  ℕ, zero, suc, ◌/◌, ◌%◌, String, Bool, true, false, ◌&&◌, ◌||◌, List, [], ◌∷◌, ◌++◌, ltb, leb,
  ◌==◌, if◌then◌else◌, str_eq, ◌<>◌,
}

pub data ChangeClass : Type 0 where
  cosmetic substantive : ChangeClass

abbrev pub is_cosmetic : ChangeClass → Bool
is_cosmetic cosmetic = true
is_cosmetic substantive = false

pub record Snapshot : Type 0 where
  pub id : ℕ
  pub url_id : ℕ
  pub http_status : ℕ
  pub redirect_chain : String
  pub title : String
  pub meta_description : String
  pub meta_robots : String
  pub x_robots_tag : String
  pub canonical : String
  pub hreflang : String
  pub headings : String
  pub word_count : ℕ
  pub content_sha256 : String
  pub content_simhash : ℕ
  pub schema_types : String
  pub internal_link_count : ℕ
  pub external_link_count : ℕ
  pub image_count : ℕ
  pub missing_alt_count : ℕ
  pub indexable : Bool
  pub indexability_reason : String
  pub render_mode : String

pub record Change : Type 0 where
  pub url_id : ℕ
  pub snapshot_id : ℕ
  pub field : String
  pub old_value : String
  pub new_value : String
  pub change_class : ChangeClass
  pub detected_at : ℕ

abbrev pub has_field : String → List Change → Bool
has_field f [] = false
has_field f (c ∷ cs) = if str_eq c.field f then true else has_field f cs

-- `bits.OnesCount64(a ^ b)`, over the lowest `w` bits.
differing_bits : ℕ → ℕ → ℕ → ℕ
differing_bits zero a b = 0
differing_bits (suc w) a b =
    let rest = differing_bits w (a / 2) (b / 2) in if a % 2 == b % 2 then rest else suc rest

unfoldable pub hamming_distance : ℕ → ℕ → ℕ
unfolding differing_bits
hamming_distance = differing_bits 64

unfoldable pub classify_content_change : ℕ → ℕ → ℕ → ChangeClass
unfolding hamming_distance
classify_content_change old_hash new_hash threshold =
    if leb (hamming_distance old_hash new_hash) threshold then cosmetic else substantive

digit : ℕ → String
digit d =
    if d == 0
    then "0"
    else if d == 1
    then "1"
    else if d == 2
    then "2"
    else if d == 3
    then "3"
    else if d == 4
    then "4"
    else if d == 5
    then "5"
    else if d == 6
    then "6"
    else if d == 7
    then "7"
    else if d == 8
    then "8"
    else "9"

decimal : ℕ → ℕ → String
unfolding digit
decimal zero n = ""
decimal (suc fuel) n =
    let front = decimal fuel (n / 10) in if ltb n 10 then digit n else front <> digit (n % 10)

-- `strconv.Itoa`: an int has at most 19 digits.
pub itoa : ℕ → String
unfolding decimal
itoa = decimal 19

abbrev pub format_bool : Bool → String
format_bool true = "true"
format_bool false = "false"

abbrev pub bool_eq : Bool → Bool → Bool
bool_eq true b = b
bool_eq false true = false
bool_eq false false = true

abbrev pub change : ℕ → Snapshot → String → String → String → ChangeClass → Change
change now new field old_value new_value class = record {
  url_id = new.url_id;
  snapshot_id = new.id;
  field = field;
  old_value = old_value;
  new_value = new_value;
  change_class = class;
  detected_at = now;
}

-- One comparison of a field: whether its two values are the same, and the change if they are not.
abbrev pub Comparison : Type 0
Comparison = Bool × Change

abbrev string_field : ℕ → Snapshot → String → String → String → Comparison
string_field now new field old_value new_value =
    (str_eq old_value new_value, change now new field old_value new_value substantive)

abbrev count_field : ℕ → Snapshot → String → ChangeClass → ℕ → ℕ → Comparison
count_field now new field class old_value new_value =
    (old_value == new_value, change now new field (itoa old_value) (itoa new_value) class)

abbrev pub content_class : ℕ → ℕ → ℕ → ChangeClass
content_class old_hash new_hash threshold =
    if (old_hash == 0) || (new_hash == 0)
    then substantive
    else classify_content_change old_hash new_hash threshold

-- A first fetch has no baseline.
unfoldable pub is_baseline : Snapshot → Bool
is_baseline old = (old.id == 0) && str_eq old.content_sha256 ""

unfoldable pub comparisons : Snapshot → Snapshot → ℕ → ℕ → List Comparison
comparisons new old threshold now =
    string_field now new "title" old.title new.title
    ∷ string_field now new "meta_description" old.meta_description new.meta_description
    ∷ string_field now new "meta_robots" old.meta_robots new.meta_robots
    ∷ string_field now new "x_robots_tag" old.x_robots_tag new.x_robots_tag
    ∷ string_field now new "canonical" old.canonical new.canonical
    ∷ string_field now new "hreflang" old.hreflang new.hreflang
    ∷ string_field now new "headings" old.headings new.headings
    ∷ string_field now new "schema_types" old.schema_types new.schema_types
    ∷ string_field now new "indexability_reason" old.indexability_reason new.indexability_reason
    ∷ string_field now new "redirect_chain" old.redirect_chain new.redirect_chain
    ∷ string_field now new "render_mode" old.render_mode new.render_mode
    ∷ (
      bool_eq old.indexable new.indexable,
      change now new "indexable" (format_bool old.indexable) (format_bool new.indexable)
          substantive,
    )
    ∷ count_field now new "http_status" substantive old.http_status new.http_status
    ∷ count_field now new "internal_link_count" substantive old.internal_link_count
        new.internal_link_count
    ∷ count_field now new "word_count" cosmetic old.word_count new.word_count
    ∷ count_field now new "image_count" cosmetic old.image_count new.image_count
    ∷ count_field now new "missing_alt_count" cosmetic old.missing_alt_count new.missing_alt_count
    ∷ count_field now new "external_link_count" cosmetic old.external_link_count
        new.external_link_count
    ∷ (
      str_eq old.content_sha256 new.content_sha256,
      change now new "content" old.content_sha256 new.content_sha256
          (content_class old.content_simhash new.content_simhash threshold),
    )
    ∷ []

-- The calls of `add`: one for each comparison that found two values.
pub add_changes : List Comparison → List Change
add_changes [] = []
add_changes ((same, c) ∷ cs) = let rest = add_changes cs in if same then rest else c ∷ rest

pub compare : Snapshot → Snapshot → ℕ → ℕ → List Change
unfolding add_changes comparisons
compare new old threshold now =
    if is_baseline old then [] else add_changes (comparisons new old threshold now)

-- The files of a site: file.go.
pub data FileKind : Type 0 where
  robots_file sitemap_file : FileKind

pub record FileSnapshot : Type 0 where
  pub id : ℕ
  pub site_id : ℕ
  pub kind : FileKind
  pub content_sha256 : String
  pub http_status : ℕ

pub record FileChange : Type 0 where
  pub site_id : ℕ
  pub file_snapshot_id : ℕ
  pub kind : FileKind
  pub field : String
  pub old_value : String
  pub new_value : String
  pub detected_at : ℕ

abbrev content_field : FileKind → String
content_field robots_file = "robots_txt"
content_field sitemap_file = "sitemap_xml"

abbrev status_field : FileKind → String
status_field robots_file = "robots_txt_status"
status_field sitemap_file = "sitemap_xml_status"

abbrev file_change : ℕ → FileSnapshot → String → String → String → FileChange
file_change now new field old_value new_value = record {
  site_id = new.site_id;
  file_snapshot_id = new.id;
  kind = new.kind;
  field = field;
  old_value = old_value;
  new_value = new_value;
  detected_at = now;
}

abbrev status_changes : FileSnapshot → FileSnapshot → ℕ → List FileChange
status_changes new old now =
    if old.http_status == new.http_status
    then []
    else file_change now new (status_field new.kind) (itoa old.http_status) (itoa new.http_status)
      ∷ []

pub compare_file : FileSnapshot → FileSnapshot → ℕ → List FileChange
compare_file new old now =
    if (old.id == 0) && str_eq old.content_sha256 ""
    then []
    else if str_eq old.content_sha256 new.content_sha256
    then status_changes new old now
    else file_change now new (content_field new.kind) old.content_sha256 new.content_sha256
      ∷ status_changes new old now
