-- ===== src/Host/SoundStatus.antt =====
-- What `parseHostStatus` of src/lib/host-metrics.ts lets through.
use voidstation_app.Prelude.{
  All, List, Option, [], ap, arith, leb, leb→le, length, none, refl, some, subst, suc, true, ℕ,
  ◌&&◌, ◌∷◌, ◌≡◌,
}
use voidstation_app.Values.{
  Members, Value, array, as_array, boolean, has_exactly, member_of, null, number, object, text,
}
use voidstation_app.Host.Results.{Ensures, Ensures-of, bind-Ensures, check-Ensures}
use voidstation_app.Host.Counters.{Dates}
use voidstation_app.Host.Status.{
  CheckedStatus, all_different, is_iso_timestamp, is_version_one, package_names, packages_of,
  status_keys, status_of, update_counts, updates_of,
}
use voidstation_app.Host.Drives.{boolean_of, drives_of, is_package_name, nullable_count, text_that}
use voidstation_app.Host.SoundDrives.{
  ArePackages, IsCount, IsStatus, IsUpdates, OrNull, drives_of-AreDrives, found-IsCount,
  text_that-holds,
}

update_counts-IsUpdates : (updates : Members) → Ensures IsUpdates (update_counts updates)
update_counts-IsUpdates updates =
    check-Ensures IsUpdates (has_exactly updates ("total" ∷ "security" ∷ [])) _ λ h.
      bind-Ensures IsUpdates (nullable_count 1000000 (member_of "total" updates)) _ λ total e.
        bind-Ensures IsUpdates (nullable_count 1000000 (member_of "security" updates)) _
          λ security f. bind-Ensures IsUpdates total _ λ t g.
            bind-Ensures IsUpdates security _ λ s i. check-Ensures IsUpdates (leb s t) _ λ j. (
              leb→le _ _ j,
              subst (IsCount 1000000) g (found-IsCount 1000000 (member_of "total" updates) total e),
            )

updates_of-IsUpdates : (v : Option Value) → Ensures (OrNull IsUpdates) (updates_of v)
updates_of-IsUpdates none = tt
updates_of-IsUpdates (some null) = tt
updates_of-IsUpdates (some (boolean b)) = tt
updates_of-IsUpdates (some (number n)) = tt
updates_of-IsUpdates (some (text t)) = tt
updates_of-IsUpdates (some (array vs)) = tt
updates_of-IsUpdates (some (object ms)) =
    bind-Ensures (OrNull IsUpdates) (update_counts ms) _
      λ u e. Ensures-of IsUpdates (update_counts ms) u (update_counts-IsUpdates ms) e

abbrev AreNames : List Value → List (List ℕ) → Type 0
AreNames vs names = (length names ≡ length vs) × All (λ t. is_package_name t ≡ true) names

package_names-AreNames : (vs : List Value) → Ensures (AreNames vs) (package_names vs)
package_names-AreNames [] = (refl, tt)
package_names-AreNames (v ∷ vs) =
    bind-Ensures (AreNames (v ∷ vs)) (text_that is_package_name (some v)) _ λ name e.
      bind-Ensures (AreNames (v ∷ vs)) (package_names vs) _ λ names f.
        let many =
          Ensures-of (AreNames vs) (package_names vs) names (package_names-AreNames vs) f in
        (
          ap suc many.0,
          (
            Ensures-of _ (text_that is_package_name (some v)) name
                (text_that-holds is_package_name (some v)) e,
            many.1,
          ),
        )

packages_of-ArePackages : (v : Option Value) → Ensures ArePackages (packages_of v)
packages_of-ArePackages v = bind-Ensures ArePackages (as_array v) _ λ vs e.
    check-Ensures ArePackages (leb (length vs) 20) _ λ h.
      bind-Ensures ArePackages (package_names vs) _ λ names f.
        check-Ensures ArePackages (all_different names) _ λ d.
          let many =
            Ensures-of (AreNames vs) (package_names vs) names (package_names-AreNames vs) f in
          (omega (arith, leb→le _ _ h, many.0), many.1, d)

IsChecked : CheckedStatus → Type 0
IsChecked found = IsStatus found.status

pub status_of-IsStatus :
    (dates : Dates) (file : Members)
    → Ensures (λ found. IsStatus found.status) (status_of dates file)
unfolding IsChecked
status_of-IsStatus dates file =
    check-Ensures IsChecked
      (has_exactly file status_keys && is_version_one (member_of "version" file)) _
      λ h.
        bind-Ensures IsChecked (text_that is_iso_timestamp (member_of "checkedAt" file)) _
          λ checked a. bind-Ensures IsChecked (dates.parse checked) _ λ time b.
            bind-Ensures IsChecked (boolean_of (member_of "rebootRequired" file)) _ λ required c.
              bind-Ensures IsChecked (packages_of (member_of "rebootPackages" file)) _ λ packages d.
                bind-Ensures IsChecked (updates_of (member_of "updates" file)) _ λ updates e.
                  bind-Ensures IsChecked (drives_of (member_of "drives" file)) _ λ drives f.
                    record {
                      packages =
                          Ensures-of _ _ packages
                            (packages_of-ArePackages (member_of "rebootPackages" file)) d;
                      few_updates =
                          Ensures-of _ _ updates (updates_of-IsUpdates (member_of "updates" file))
                            e;
                      few_drives =
                          Ensures-of _ _ drives (drives_of-AreDrives (member_of "drives" file)) f;
                    }
