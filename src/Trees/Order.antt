-- ===== src/Trees/Order.antt =====
-- `_order_sections`, `_ancestor_ids` and `_flattened_parent_id` of src/ai_researcher/trees/build.py.
pub mod Layers
pub mod Passes
pub mod Placing
pub mod Ancestors
use ai_researcher.Prelude.{
  ℕ, zero, suc, ◌+◌, ◌≤◌, String, ◌≡◌, Bool, true, false, not, ◌&&◌, ◌||◌, Option, none, some, List,
  [], ◌∷◌, ◌++◌, map, if◌then◌else◌, ltb, leb, nat_eq, ◌==◌, length, is_empty, contains, lookup,
  insert, keys, sort, Result, ok, err, guard, need, ◌>>=◌, ◌>>◌,
}
use ai_researcher.Trees.Errors.{
  Error, duplicate_ids, cycle, missing_parent, missing_key, no_ancestor, out_of_fuel,
}

pub record SectionTreeInput : Type 0 where
  pub id : ℕ
  pub parent_id : Option ℕ
  pub section_path : String
  pub title : Option String
  pub ordinal : ℕ
  pub page_start : Option ℕ
  pub page_end : Option ℕ
  pub body_text : String

abbrev pub section_ids : List SectionTreeInput → List ℕ
section_ids xs = map (λ x. x.id) xs

-- `len(by_id) != len(sections)`
unfoldable pub is_distinct : List ℕ → Bool
is_distinct [] = true
is_distinct (i ∷ rest) = not (contains rest i) && is_distinct rest

-- `by_id[section_id]`; the identifiers are distinct.
unfoldable pub by_id : ℕ → List SectionTreeInput → Option SectionTreeInput
by_id i [] = none
by_id i (x ∷ xs) = if x.id == i then some x else by_id i xs

-- The sort key `(ordinal, id)`.
abbrev pub precedes : SectionTreeInput → SectionTreeInput → Bool
precedes a b = ltb a.ordinal b.ordinal || a.ordinal == b.ordinal && leb a.id b.id

abbrev pub Depths : Type 0
Depths = List (ℕ × ℕ)

-- The variables of the `while` loop. Within a pass, `pending` holds the sections that the pass has
-- come by and left.
pub record Progress : Type 0 where
  pub ordered : List SectionTreeInput
  pub depths : Depths
  pub pending : List SectionTreeInput
  pub progressed : Bool

-- `original_depths[parent_id] + 1`
abbrev pub below : Option ℕ → Option ℕ
below none = none
below (some d) = some (d + 1)

abbrev pub depth_under : Option ℕ → Depths → Option ℕ
depth_under none depths = some 0
depth_under (some p) depths = below (lookup p depths)

-- The depth at which a section can be placed: its parent has one, or it has no parent.
unfoldable pub depth_for : SectionTreeInput → Depths → Option ℕ
depth_for item depths = depth_under item.parent_id depths

unfoldable pub has_parent : List ℕ → SectionTreeInput → Bool
has_parent known item = elim item.parent_id [ none ↦ true | some p ↦ contains known p ]

abbrev pub visited : SectionTreeInput → Option ℕ → Progress → Progress
visited item none w = record w { pending = w.pending ++ item ∷ [] }
visited item (some d) w = record w {
  ordered = w.ordered ++ item ∷ [];
  depths = insert item.id d w.depths;
  progressed = true;
}

-- `for item in tuple(pending)`
unfoldable pub visit_all : List ℕ → List SectionTreeInput → Progress → Result Error Progress
visit_all known [] w = ok w
visit_all known (item ∷ rest) w = do
  guard (has_parent known item) missing_parent
  visit_all known rest (visited item (depth_for item w.depths) w)

-- `while pending`, on fuel.
unfoldable pub place_all : ℕ → List ℕ → Progress → Result Error Progress
place_all zero known w = err out_of_fuel
place_all (suc fuel) known w =
    let step = (do
      next ← visit_all known w.pending (record w { pending = []; progressed = false })
      if next.progressed then place_all fuel known next else err cycle) in
    if is_empty w.pending then ok w else step

unfoldable pub order_sections :
    List SectionTreeInput → Result Error (List SectionTreeInput × Depths)
order_sections sections = do
  guard (is_distinct (section_ids sections)) duplicate_ids
  done ←
      place_all (suc (length sections)) (section_ids sections)
        (record { ordered = []; depths = []; pending = sort precedes sections; progressed = false })
  ok (done.ordered, done.depths)

-- The `while parent_id is not None` loop, on fuel.
unfoldable pub ancestors : ℕ → List SectionTreeInput → Option ℕ → Result Error (List ℕ)
ancestors fuel sections none = ok []
ancestors zero sections (some p) = err out_of_fuel
ancestors (suc fuel) sections (some p) = do
  parent ← need (by_id p sections) missing_key
  rest ← ancestors fuel sections parent.parent_id
  ok (p ∷ rest)

-- `next(ancestor_id for … if original_depths[ancestor_id] == target_depth)`
unfoldable pub first_at_depth : ℕ → Depths → List ℕ → Result Error ℕ
first_at_depth target depths [] = err no_ancestor
first_at_depth target depths (a ∷ rest) = do
  d ← need (lookup a depths) missing_key
  let later = first_at_depth target depths rest
  (if d == target then ok a else later)

abbrev pub max_tree_depth : ℕ
max_tree_depth = 4

-- `_flattened_parent_id`, with the entry of `_ancestor_ids` for the section.
unfoldable pub flattened_parent_id :
    SectionTreeInput → ℕ → List ℕ → Depths → Result Error (Option ℕ)
flattened_parent_id item original_depth above depths =
    let hoisted = (do a ← first_at_depth 3 depths above; ok (some a)) in
    if leb original_depth max_tree_depth then ok item.parent_id else hoisted
