-- ===== src/Services/Watch/Client.antt =====
-- What a browser makes of the changes: `subscribeServices` of src/api/client.ts. A field that is
-- empty is left out of the JSON, so that it does not overwrite what the browser has.
use lumio_os.Prelude.{
  String, true, Option, none, some, List, [], ◌∷◌, ◌++◌, ◌≡◌, refl, str_eq, eq_iff, if◌then◌else◌,
  string_eq, arith, Bool-cases, inl, inr,
}
use lumio_os.Prelude.Map.{Map, lookup, insert, lookup-insert}
use lumio_os.Services.Units.{ServiceUnit, same, changed_field, difference, differing}
use lumio_os.Services.Watch.{filled}

abbrev pub fallback : String → ServiceUnit
fallback name = record {
  name = name;
  description = "";
  load_state = "loaded";
  active_state = "inactive";
  sub_state = "dead";
  enabled_state = "disabled";
}

abbrev pub known_or_fallback : String → Option ServiceUnit → ServiceUnit
known_or_fallback name none = fallback name
known_or_fallback name (some u) = u

-- { ...old, ...event.unit }
abbrev pub merge : ServiceUnit → ServiceUnit → ServiceUnit
merge old u = record {
  name = u.name;
  description = filled u.description old.description;
  load_state = filled u.load_state old.load_state;
  active_state = filled u.active_state old.active_state;
  sub_state = filled u.sub_state old.sub_state;
  enabled_state = filled u.enabled_state old.enabled_state;
}

abbrev pub View : Type 0
View = Map String ServiceUnit

unfoldable pub show_change : ServiceUnit → View → View
unfolding insert lookup
show_change u view = insert u.name (merge (known_or_fallback u.name (lookup u.name view)) u) view

-- The view after all the changes that are still on their way.
unfoldable pub catch_up : List ServiceUnit → View → View
unfolding show_change
catch_up [] view = view
catch_up (u ∷ us) view = catch_up us (show_change u view)

pub catch_up-append :
    (us vs : List ServiceUnit) (view : View)
    → catch_up (us ++ vs) view ≡ catch_up vs (catch_up us view)
unfolding catch_up
catch_up-append [] vs view = refl
catch_up-append (u ∷ us) vs view = catch_up-append us vs (show_change u view)

-- No field is emptied from `p` to `u`.
pub record Fills (p u : ServiceUnit) : Type 0 where
  pub description : u.description ≡ "" → p.description ≡ ""
  pub load_state : u.load_state ≡ "" → p.load_state ≡ ""
  pub active_state : u.active_state ≡ "" → p.active_state ≡ ""
  pub sub_state : u.sub_state ≡ "" → p.sub_state ≡ ""
  pub enabled_state : u.enabled_state ≡ "" → p.enabled_state ≡ ""

filled-changed_field :
    (new old : String) → (new ≡ "" → old ≡ "") → filled (changed_field new old) old ≡ new
filled-changed_field new old h =
    ground (arith, eq_iff new old, eq_iff new "", eq_iff (changed_field new old) "")

filled_over : (new old : String) → (new ≡ "" → old ≡ "") → filled new old ≡ new
filled_over new old h = ground (arith, eq_iff new "")

merge-difference : (p u : ServiceUnit) → Fills p u → merge p (difference u p) ≡ u
merge-difference p u f = ground (
  arith,
  filled-changed_field u.description p.description f.description,
  filled-changed_field u.load_state p.load_state f.load_state,
  filled-changed_field u.active_state p.active_state f.active_state,
  filled-changed_field u.sub_state p.sub_state f.sub_state,
  filled-changed_field u.enabled_state p.enabled_state f.enabled_state,
)

merge_over : (p u : ServiceUnit) → Fills p u → merge p u ≡ u
merge_over p u f = ground (
  arith,
  filled_over u.description p.description f.description,
  filled_over u.load_state p.load_state f.load_state,
  filled_over u.active_state p.active_state f.active_state,
  filled_over u.sub_state p.sub_state f.sub_state,
  filled_over u.enabled_state p.enabled_state f.enabled_state,
)

same_eq : (u p : ServiceUnit) → p.name ≡ u.name → same u p ≡ true → p ≡ u
unfolding same
same_eq u p n h = ground (
  arith,
  eq_iff u.description p.description,
  eq_iff u.load_state p.load_state,
  eq_iff u.active_state p.active_state,
  eq_iff u.sub_state p.sub_state,
  eq_iff u.enabled_state p.enabled_state,
)

-- What one entry of `diffUnits` does to a view that has what `prev` has of the unit.
pub shown :
    (u : ServiceUnit) (was : Option ServiceUnit) (view : View) (n : String)
    → ((p : ServiceUnit) → was ≡ some p → p.name ≡ u.name)
    → Fills (known_or_fallback u.name was) u
    → lookup u.name view ≡ was
    → lookup n (catch_up (differing was u []) view)
      ≡ (if str_eq u.name n then some u else lookup n view)
unfolding catch_up show_change
shown u none view n named f e =
    rw e (rw (merge_over (fallback u.name) u f) (lookup-insert u.name n u view))
shown u (some p) view n named f e = elim (Bool-cases (same u p)) [
  | inl s ↦ rw s (ground (arith, same_eq u p (named p refl) s, eq_iff u.name n))
  | inr d ↦ rw d (rw e (rw (merge-difference p u f) (lookup-insert u.name n u view)))
]
