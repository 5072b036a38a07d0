-- ===== src/Storage/Fat/Entries.antt =====
-- What a listing holds: `read_dir_entries` and `find_entry` of fs/fat16/impls.rs (pkg/storage/src).
use operating_system_experim.Prelude.{
  ℕ, zero, suc, ◌+◌, ◌*◌, ◌/◌, ◌%◌, ◌^◌, ◌≡◌, sym, ap, subst, inl, inr, Bool, true, false, not,
  ◌&&◌, ◌||◌, Option, none, some, refl, List, [], ◌∷◌, ◌++◌, arith, ◌==◌, if◌then◌else◌, Bool-cases,
  get_or, All, All-append,
}
use operating_system_experim.Storage.Outcome.{
  Outcome, ok, slice, Holds, Holds-bind, Holds-any, Holds-branch, bind-ok,
}
use operating_system_experim.Storage.ShortName.{Text, ShortFileName, matches, parse as parse_name}
use operating_system_experim.Storage.DirEntry.{
  DirEntry, root_dir, is_valid, is_long_name, parse as parse_entry,
}
use operating_system_experim.Storage.Bpb.{sectors_per_cluster, bytes_per_sector}
use operating_system_experim.Storage.Fat.{
  Fat16Impl, scan_block, scan_sectors, scan_clusters, root_dir_size, cluster_to_sector, next_or_end,
  get_next_cluster, add_entry, read_dir_entries, find_entry, find_name,
}

module _ {t : Text} where
  -- An entry in use that is no part of a long name.
  abbrev pub Proper : DirEntry t → Type 0
  Proper e = (is_valid e ≡ true) × (is_long_name e ≡ false)

  abbrev ScanProper : Bool × List (DirEntry t) → Type 0
  ScanProper r = All Proper r.1

  add_entry-Proper :
      (entries : List (DirEntry t)) (e : DirEntry t)
      → All Proper entries
      → All Proper (add_entry entries e)
  add_entry-Proper entries e h = elim (Bool-cases (is_valid e && not (is_long_name e))) [
    | inl y ↦
        subst (λ b. All Proper (if b then entries ++ e ∷ [] else entries)) (sym y)
          (All-append Proper entries (e ∷ []) h ((ground arith, ground arith), tt))
    | inr n ↦ subst (λ b. All Proper (if b then entries ++ e ∷ [] else entries)) (sym n) h
  ]

  scan_block-Proper :
      (count j : ℕ) (block : List ℕ) (entries : List (DirEntry t))
      → All Proper entries
      → Holds ScanProper (scan_block count j block entries)
  unfolding scan_block
  scan_block-Proper zero j block entries h = h
  scan_block-Proper (suc count) j block entries h =
      Holds-bind (λ _. Unit) ScanProper (slice block (j * 32) 32) _ (Holds-any _)
        (λ bytes _.
          let next =
            if get_or bytes 0 0 == 0xE5 then entries else add_entry entries (parse_entry bytes) in
          Holds-branch ScanProper (get_or bytes 0 0 == 0x00) (ok (true, entries))
            (scan_block count (j + 1) block next) h
            (scan_block-Proper count (j + 1) block next
              (elim (get_or bytes 0 0 == 0xE5)
                as (λ b.
                  All Proper (if b then entries else add_entry entries (parse_entry bytes))) [
                    | true ↦ h
                    | false ↦ add_entry-Proper entries (parse_entry bytes) h
                  ])))

  scan_sectors-Proper :
      (fs : Fat16Impl) (count sector : ℕ) (entries : List (DirEntry t))
      → All Proper entries
      → Holds ScanProper (scan_sectors fs count sector entries)
  unfolding scan_sectors
  scan_sectors-Proper fs zero sector entries h = h
  scan_sectors-Proper fs (suc count) sector entries h =
      Holds-bind (λ _. Unit) ScanProper (fs.inner sector) _ (Holds-any _)
        (λ block _.
          Holds-bind ScanProper ScanProper
            (scan_block (bytes_per_sector fs.bpb / 32) 0 block entries) _
            (scan_block-Proper (bytes_per_sector fs.bpb / 32) 0 block entries h)
            (λ (done, es) k.
              Holds-branch ScanProper done (ok (true, es)) (scan_sectors fs count (sector + 1) es) k
                (scan_sectors-Proper fs count (sector + 1) es k)))

  scan_clusters-Proper :
      (fuel : ℕ) (fs : Fat16Impl) (cluster : ℕ) (entries : List (DirEntry t))
      → All Proper entries
      → Holds (All Proper) (scan_clusters fuel fs cluster entries)
  unfolding scan_clusters
  scan_clusters-Proper zero fs cluster entries h = tt
  scan_clusters-Proper (suc fuel) fs cluster entries h =
      let count =
        if cluster == root_dir then root_dir_size fs.bpb else sectors_per_cluster fs.bpb in
      Holds-bind ScanProper (All Proper)
        (scan_sectors fs count (cluster_to_sector fs cluster) entries) _
        (scan_sectors-Proper fs count (cluster_to_sector fs cluster) entries h)
        (λ (done, es) k. Holds-branch (All Proper) (done || cluster == root_dir) (ok es) _ k (
          Holds-bind (λ _. Unit) (All Proper) (next_or_end (get_next_cluster fs (cluster % 2 ^ 16)))
            _ (Holds-any _)
            (λ next _.
              elim next
                as (λ x.
                  Holds (All Proper)
                    (elim x [ none ↦ ok es | some c ↦ scan_clusters fuel fs c es ])) [
                      | none ↦ k
                      | some cluster' ↦ scan_clusters-Proper fuel fs cluster' es k
                    ])))

  -- Every entry of a listing is in use and no part of a long name, whatever the volume holds.
  pub read_dir_entries-Proper :
      (fuel : ℕ) (fs : Fat16Impl) (cluster : ℕ) (entries : List (DirEntry t))
      → read_dir_entries fuel fs cluster ≡ ok entries
      → All Proper entries
  read_dir_entries-Proper fuel fs cluster entries e =
      subst (Holds (All Proper)) e (scan_clusters-Proper fuel fs cluster [] tt)

  -- The first entry of a list with the name, if there is one: those before it have other names.
  abbrev pub Picks : ShortFileName → List (DirEntry t) → Option (DirEntry t) → Type 0
  Picks name entries none = All (λ d. matches d.filename name ≡ false) entries
  Picks name entries (some e) =
      (before : List (DirEntry t)) × (after : List (DirEntry t)) × (entries ≡ before ++ e ∷ after)
      × (matches e.filename name ≡ true)
      × All (λ d. matches d.filename name ≡ false) before

  later-Picks :
      (name : ShortFileName) (d : DirEntry t) (entries : List (DirEntry t))
      (o : Option (DirEntry t))
      → matches d.filename name ≡ false
      → Picks name entries o
      → Picks name (d ∷ entries) o
  later-Picks name d entries none other h = (other, h)
  later-Picks name d entries (some e) other (before, after, split, same, others) =
      (d ∷ before, after, ap (λ l. d ∷ l) split, same, (other, others))

  find_name-Picks :
      (name : ShortFileName) (entries : List (DirEntry t))
      → Picks name entries (find_name name entries)
  unfolding find_name
  find_name-Picks name [] = tt
  find_name-Picks name (d ∷ entries) = elim (Bool-cases (matches d.filename name)) [
    | inl found ↦ rw (found, find_name) ([], entries, refl, found, tt)
    | inr other ↦
        rw (other, find_name)
          (later-Picks name d entries (find_name name entries) other (find_name-Picks name entries))
  ]

  -- For a part of a path that is not empty: whatever `find_entry` answers without an error, the part
  -- has a form of 8 and 3 bytes and the directory a listing. An entry is answered just where the
  -- listing has one of that name, and it is the first: the entries before it, or all if none is
  -- answered, have other names.
  pub find_entry-first :
      (fuel : ℕ) (fs : Fat16Impl) (cluster c : ℕ) (name : List ℕ) (o : Option (DirEntry t))
      → find_entry fuel fs cluster (c ∷ name) ≡ ok o
      → (target : ShortFileName) × (entries : List (DirEntry t)) × (parse_name t (c ∷ name)
          ≡ ok target)
        × (read_dir_entries fuel fs cluster ≡ ok entries)
        × Picks target entries o
  unfolding find_entry
  find_entry-first fuel fs cluster c name o h =
      let (entries, listed, h1) = bind-ok (read_dir_entries fuel fs cluster) _ o h in
      let (target, parsed, h2) = bind-ok (parse_name t (c ∷ name)) _ o h1 in
      let found : find_name target entries ≡ o = answered (find_name target entries) o h2 in
      (
        target,
        entries,
        parsed,
        listed,
        subst (Picks target entries) found (find_name-Picks target entries),
      )
    where
      answered :
          (a o : Option (DirEntry t))
          → ◌≡◌ {A = Outcome (Option (DirEntry t))} (ok a) (ok o)
          → a ≡ o
      answered a o k = cc k
