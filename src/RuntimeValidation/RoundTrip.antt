-- ===== src/RuntimeValidation/RoundTrip.antt =====
-- The messages of the renderer as values, and what the checks make of them.
use church_presenter.Common.{String, ◌≡◌, ◌≢◌, refl, Option, none, some, arith}
use church_presenter.Common.Texts.{trim, str_eq-false, str_ne}
use church_presenter.Common.Outcome.{done}
use church_presenter.PlanKinds.{PlanItemKind, announcement_text, kind_name, read_kind}
use church_presenter.PlanKinds.Names.{read_kind-kind_name}
use church_presenter.Plans.{AddItemPayload}
use church_presenter.Json.{Value, str, obj, given, no_properties, property, get}
use church_presenter.RuntimeValidation.{
  trimmed, raw, expect_record, expect_string, expect_optional_string, expect_enum,
}
use church_presenter.RuntimeValidation.Plans.{parse_add_item_payload}

-- A text that is not empty and has no white space at its ends.
pub record IsTrimmed (s : String) : Type 0 where
  pub unchanged : trim s ≡ s
  pub filled : s ≢ ""

-- A condition on a value that may be missing.
abbrev pub IfGiven {ℓ} : {A : Type ℓ} → (A → Type 0) → Option A → Type 0
IfGiven P none = Unit
IfGiven P (some a) = P a

pub expect_string-trimmed : (s : String) → IsTrimmed s → expect_string trimmed (str s) ≡ done s
unfolding expect_string
expect_string-trimmed s t = rw t.unchanged (rw (str_eq-false s "" t.filled) refl)

pub expect_optional_string-raw :
    (o : Option String) → expect_optional_string raw (given str o) ≡ done o
unfolding expect_optional_string expect_string
expect_optional_string-raw none = refl
expect_optional_string-raw (some s) = ground arith

pub expect_optional_string-trimmed :
    (o : Option String)
    → IfGiven IsTrimmed o
    → expect_optional_string trimmed (given str o) ≡ done o
unfolding expect_optional_string expect_string
expect_optional_string-trimmed none t = refl
expect_optional_string-trimmed (some s) t = rw t.unchanged (rw (str_eq-false s "" t.filled) refl)

pub expect_enum_lem :
    {A : Type 0} (read : String → Option A) (name : String) (a : A)
    → IsTrimmed name
    → read name ≡ some a
    → expect_enum read (str name) ≡ done a
unfolding expect_enum
expect_enum_lem read name a t e = rw (expect_string-trimmed name t) (rw e refl)

pub kind_name-IsTrimmed : (k : PlanItemKind) → IsTrimmed (kind_name k)
unfolding trim kind_name
kind_name-IsTrimmed announcement_text = record {
  unchanged = refl;
  filled = str_ne (kind_name announcement_text) "" refl;
}
kind_name-IsTrimmed k = record { unchanged = refl; filled = str_ne (kind_name k) "" refl }

-- The message of `plans:addItem`.
unfoldable pub add_item_value : AddItemPayload → Value
add_item_value p = obj (
    property "planId" (str p.plan_id) (
      property "kind" (str (kind_name p.kind)) (
        property "title" (given str p.title) (
          property "content" (given str p.content) (
            property "notes" (given str p.notes) (
              property "refId" (given str p.ref_id) (
                property "refSubId" (given str p.ref_sub_id) (
                  property "mediaPath" (given str p.media_path) (
                    property "secondaryContent" (given str p.secondary_content) (
                      property "backgroundConfig" (given str p.background_config)
                        no_properties))))))))))

pub record IsAddItem (p : AddItemPayload) : Type 0 where
  pub plan_id : IsTrimmed p.plan_id
  pub ref_id : IfGiven IsTrimmed p.ref_id
  pub ref_sub_id : IfGiven IsTrimmed p.ref_sub_id
  pub media_path : IfGiven IsTrimmed p.media_path

-- The message of plans:addItem for a payload is read as that payload, whatever its texts that are kept as they are
-- hold, if the ids and the path in it have no white space at their ends and are not empty.
pub parse_add_item_payload-value :
    (p : AddItemPayload) → IsAddItem p → parse_add_item_payload (add_item_value p) ≡ done p
unfolding parse_add_item_payload add_item_value get expect_record
parse_add_item_payload-value p t =
    rw
      (
        expect_string-trimmed p.plan_id t.plan_id,
        expect_optional_string-raw p.title,
        expect_optional_string-raw p.content,
        expect_optional_string-raw p.notes,
        expect_optional_string-raw p.secondary_content,
        expect_optional_string-raw p.background_config,
        expect_optional_string-trimmed p.ref_id t.ref_id,
        expect_optional_string-trimmed p.ref_sub_id t.ref_sub_id,
        expect_optional_string-trimmed p.media_path t.media_path,
      )
      (rw
        (expect_enum_lem read_kind (kind_name p.kind) p.kind (kind_name-IsTrimmed p.kind)
          (read_kind-kind_name p.kind))
        refl)
