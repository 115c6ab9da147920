-- ===== src/Host/Rebuilt.antt =====
-- What the host-status helper writes is what `parseHostStatus` of src/lib/host-metrics.ts reads.
use voidstation_app.Host.Counters.{Dates}
use voidstation_app.Prelude.{
  All, List, Option, [], ap, arith, leb, length, le→leb, map, none, refl, some, true, ℕ, ◌∙◌, ◌∷◌,
  ◌≡◌, ◌≤◌,
}
use voidstation_app.Values.{
  Value, array, max_safe_integer, member, no_member, object, text, values_list,
  values_list-values_of, values_of, whole,
}
use voidstation_app.Host.Status.{
  all_different, is_iso_timestamp, package_names, packages_of, parse_host_status, status_of,
  update_counts, updates_of,
}
use voidstation_app.Host.Drives.{HostStatus, Updates, is_package_name, text_that}
use voidstation_app.Host.RebuiltDrives.{
  bind-some, check-some, drives_of-some, few-values, name_value, nullable_count-some,
  status_members, text_that-some, updates_value,
}
use voidstation_app.Host.SoundDrives.{ArePackages, IsStatus, IsUpdates, OrNull}

updates_of-some :
    (updates : Option Updates)
    → OrNull IsUpdates updates
    → updates_of (some (updates_value updates)) ≡ some updates
updates_of-some none h = refl
updates_of-some (some updates) (l, h) =
    let most : 1000000 ≤ max_safe_integer = omega arith in
    bind-some
      (update_counts (
        member "total" (whole updates.total)
          (member "security" (whole updates.security) no_member)))
      _ updates _
      (bind-some _ _ (some updates.total) _
        (nullable_count-some 1000000 (some updates.total) most h)
        (bind-some _ _ (some updates.security) _
          (nullable_count-some 1000000 (some updates.security) most (omega (arith, l, h)))
          (check-some (leb updates.security updates.total) _ _ (le→leb _ _ l) refl)))
      refl

package_names-some :
    (names : List (List ℕ))
    → All (λ t. is_package_name t ≡ true) names
    → package_names (map name_value names) ≡ some names
package_names-some [] h = refl
package_names-some (name ∷ names) (h, hs) =
    bind-some (text_that is_package_name (some (text name))) _ name _
      (text_that-some is_package_name name h)
      (bind-some (package_names (map name_value names)) _ names _ (package_names-some names hs)
        refl)

packages_of-some :
    (names : List (List ℕ))
    → ArePackages names
    → packages_of (some (array (values_of (map name_value names)))) ≡ some names
packages_of-some names (l, h, d) =
    check-some (leb (length (values_list (values_of (map name_value names)))) 20) _ _
      (few-values name_value names 20 l)
      (bind-some (package_names (values_list (values_of (map name_value names)))) _ names _
        (ap package_names (values_list-values_of (map name_value names))
          ∙ package_names-some names h)
        (check-some (all_different names) _ _ d refl))

status_of-status_members :
    (dates : Dates) (status : HostStatus) (checked : List ℕ) (time : ℕ)
    → IsStatus status
    → is_iso_timestamp checked ≡ true
    → dates.parse checked ≡ some time
    → status_of dates (status_members status checked)
      ≡ some (record { status = status; checked_at = time })
status_of-status_members dates status checked time h i p =
    bind-some _ _ checked _ (text_that-some is_iso_timestamp checked i) (
      bind-some (dates.parse checked) _ time _ p (
        bind-some _ _ status.reboot_packages _ (packages_of-some status.reboot_packages h.packages)
          (bind-some _ _ status.updates _ (updates_of-some status.updates h.few_updates)
            (bind-some _ _ status.drives _ (drives_of-some status.drives h.few_drives) refl))))

-- A status that meets the checks is read back exactly as it was written, with the time of its check,
-- if the file has at most 65,536 characters.
pub parse_host_status-status_members :
    (dates : Dates) (parse_json : List ℕ → Option Value) (content : List ℕ) (status : HostStatus)
    (checked : List ℕ) (time : ℕ)
    → IsStatus status
    → is_iso_timestamp checked ≡ true
    → dates.parse checked ≡ some time
    → length content ≤ 65536
    → parse_json content ≡ some (object (status_members status checked))
    → parse_host_status dates parse_json content
      ≡ some (record { status = status; checked_at = time })
unfolding parse_host_status
parse_host_status-status_members dates parse_json content status checked time h i p l j =
    check-some (leb (length content) 65536) _ _ (le→leb _ _ l) (
      bind-some (parse_json content) _ (object (status_members status checked)) _ j
        (status_of-status_members dates status checked time h i p))
