-- ===== src/PlanKinds/Names.antt =====
-- Reading a kind from its name.
use church_presenter.Common.{◌≡◌, refl, some}
use church_presenter.PlanKinds.{PlanItemKind, announcement_text, kind_name, read_kind}

pub read_kind-kind_name : (k : PlanItemKind) → read_kind (kind_name k) ≡ some k
unfolding read_kind kind_name
read_kind-kind_name announcement_text = refl
read_kind-kind_name _ = refl
