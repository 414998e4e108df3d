-- ===== src/Runtime/Scan/Found.antt =====
-- Which devices the scan of runtime/src/scan.c reports.
use linux_pci_driver.Common.{
  update, ℕ, zero, suc, ◌+◌, ◌≤◌, ◌<◌, min, ltb, ◌==◌, if◌then◌else◌, Bool, true, false, not, ◌≡◌,
  ◌≢◌, refl, ap, ◌∙◌, arith, ◌⊎◌, inl, inr, Option, none, some, List, [], ◌∷◌, length, take,
  update-same, update-other,
}
use linux_pci_driver.Runtime.Scan.{
  DeviceInfo, Sysfs, max_devices, hidden, read_device_attrs, scan_entries, velocitor_scan,
}
use linux_pci_driver.Runtime.Scan.Described.{described, Goes, read_device_attrs-Goes}

choose_both {ℓ κ} :
    {A B : Type ℓ} (P : A → B → Type κ) (b : Bool) {a c : A} {x y : B}
    → P a x
    → P c y
    → P (if b then a else c) (if b then x else y)
choose_both P true p q = p
choose_both P false p q = q

-- The devices that the entries describe, in their order.
unfoldable pub visible : Sysfs → List (List ℕ) → List DeviceInfo
visible fs [] = []
visible fs (name ∷ more) =
    if hidden name
    then visible fs more
    else elim (described fs name) [ none ↦ visible fs more | some d ↦ d ∷ visible fs more ]

-- The first `n` entries of an array from an index on.
abbrev pub listed : (ℕ → DeviceInfo) → ℕ → ℕ → List DeviceInfo
listed f i zero = []
listed f i (suc n) = f i ∷ listed f (i + 1) n

-- An outcome of the loop that starts at `idx`: the devices of the list, put in place, and nothing
-- outside of the array changed, nor before `idx`.
record Found (l : List DeviceInfo) (idx count : ℕ) (devices : ℕ → DeviceInfo)
    (r : ℕ × (ℕ → DeviceInfo)) : Type 0 where
  number : r.0 ≡ idx + length l
  placed : listed r.1 idx (length l) ≡ l
  kept : (k : ℕ) → (k < idx) ⊎ (count ≤ k) → r.1 k ≡ devices k

module _ (fs : Sysfs) (count : ℕ) where
  outside : (k idx : ℕ) → (k < idx) ⊎ (count ≤ k) → idx < count → k ≢ idx
  outside k idx (inl lt) in_array e = omega (arith, lt, e)
  outside k idx (inr le) in_array e = omega (arith, le, in_array, e)

  earlier : (k idx : ℕ) → (k < idx) ⊎ (count ≤ k) → (k < idx + 1) ⊎ (count ≤ k)
  earlier k idx (inl lt) = inl (omega (arith, lt))
  earlier k idx (inr le) = inr le

  none_left : (idx : ℕ) (devices : ℕ → DeviceInfo) → Found [] idx count devices (idx, devices)
  none_left idx devices = record { number = omega arith; placed = refl; kept = λ k out. refl }

  entry-Found :
      (o : Option DeviceInfo) (v : List DeviceInfo) (idx room : ℕ) (devices : ℕ → DeviceInfo)
      (r : ℕ × DeviceInfo) (failed found : ℕ × (ℕ → DeviceInfo))
      → Goes o r
      → idx < count
      → Found (take (suc room) v) idx count (update devices idx r.1) failed
      → Found (take room v) (idx + 1) count (update devices idx r.1) found
      → Found
          (take (suc room) (elim o [ none ↦ v | some d ↦ d ∷ v ]))
          idx
          count
          devices
          (if r.0 == 0 then found else failed)
  entry-Found none v idx room devices (err, d) failed found goes lt f g =
      let bad : (err == 0) ≡ false = ground arith in
      rw bad (record {
        number = f.number;
        placed = f.placed;
        kept = λ k out. f.kept k out ∙ update-other devices idx d k (outside k idx out lt);
      })
  entry-Found (some x) v idx room devices (err, d) failed found (good, is) lt f g =
      let fine : (err == 0) ≡ true = ground arith in
      rw fine (record {
        number = omega (arith, g.number);
        placed =
            let first = g.kept idx (inl (omega arith)) ∙ update-same devices idx d ∙ is in
            λ i. first i ∷ g.placed i;
        kept = λ k out.
            g.kept k (earlier k idx out) ∙ update-other devices idx d k (outside k idx out lt);
      })

  scan_entries-Found :
      (entries : List (List ℕ)) (room idx : ℕ) (devices : ℕ → DeviceInfo)
      → count ≡ idx + room
      → Found
          (take room (visible fs entries))
          idx
          count
          devices
          (scan_entries fs count entries idx devices)
  unfolding scan_entries visible
  scan_entries-Found [] zero idx devices e = none_left idx devices
  scan_entries-Found (name ∷ more) zero idx devices e =
      let full : not (ltb idx count) ≡ true = ground arith in rw full (none_left idx devices)
  scan_entries-Found [] (suc room) idx devices e = none_left idx devices
  scan_entries-Found (name ∷ more) (suc room) idx devices e =
      let r = read_device_attrs fs name (devices idx) in
      let left : not (ltb idx count) ≡ false = ground arith in
      rw left (
        choose_both (λ l x. Found (take (suc room) l) idx count devices x) (hidden name)
          (scan_entries-Found more (suc room) idx devices e)
          (entry-Found (described fs name) (visible fs more) idx room devices r
            (scan_entries fs count more idx (update devices idx r.1))
            (scan_entries fs count more (idx + 1) (update devices idx r.1))
            (read_device_attrs-Goes fs name (devices idx)) (omega (arith, e))
            (scan_entries-Found more (suc room) idx (update devices idx r.1) e)
            (scan_entries-Found more room (idx + 1) (update devices idx r.1) (omega (arith, e)))))

-- The scan of a class that can be opened reports, in the order of the directory, the first devices
-- whose five files can be read, skipping dot entries and the ones that cannot: as many as there are,
-- up to the room of the array and VEL_MAX_DEVICES.
pub velocitor_scan-found :
    (fs : Sysfs) (count : ℕ) (devices : ℕ → DeviceInfo) (entries : List (List ℕ))
    → fs.opendir ≡ inr entries
    → (n : ℕ) × (d : ℕ → DeviceInfo) × (velocitor_scan fs (some devices) count ≡ (inr n, some d))
      × (listed d 0 n ≡ take (min count max_devices) (visible fs entries))
      × (n ≡ length (take (min count max_devices) (visible fs entries)))
unfolding velocitor_scan
velocitor_scan-found fs count devices entries opened =
    let limit = min count max_devices in
    let r = scan_entries fs limit entries 0 devices in
    let f = scan_entries-Found fs limit entries limit 0 devices (omega arith) in
    let n : r.0 ≡ length (take limit (visible fs entries)) = omega (arith, f.number) in
    (r.0, r.1, rw opened refl, ap (listed r.1 0) n ∙ f.placed, n)

-- The scan writes to no device at or past the room of the array or VEL_MAX_DEVICES.
pub velocitor_scan-bounds :
    (fs : Sysfs) (count : ℕ) (devices : ℕ → DeviceInfo) (entries : List (List ℕ)) (k : ℕ)
    → fs.opendir ≡ inr entries
    → min count max_devices ≤ k
    → (d : ℕ → DeviceInfo) × ((velocitor_scan fs (some devices) count).1 ≡ some d)
      × (d k ≡ devices k)
unfolding velocitor_scan
velocitor_scan-bounds fs count devices entries k opened past =
    let limit = min count max_devices in
    let f = scan_entries-Found fs limit entries limit 0 devices (omega arith) in
    ((scan_entries fs limit entries 0 devices).1, rw opened refl, f.kept k (inr past))
