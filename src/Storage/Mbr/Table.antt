-- ===== src/Storage/Mbr/Table.antt =====
-- The partition table of a first block that was written, partition/mbr/mod.rs of pkg/storage/src.
use operating_system_experim.Prelude.{
  ℕ, ◌+◌, ◌*◌, ◌≡◌, refl, sym, ap, ◌∙◌, List, [], ◌∷◌, ◌++◌, append_assoc, arith, length, take,
  drop, length-append, take-exact, drop-exact, All,
}
use operating_system_experim.Storage.Outcome.{ok, slice}
use operating_system_experim.Storage.Device.{BlockDevice}
use operating_system_experim.Storage.Mbr.{parse, parse_entries}

slice-middle :
    (pre part rest : List ℕ) (start len : ℕ)
    → length pre ≡ start
    → length part ≡ len
    → slice (pre ++ (part ++ rest)) start len ≡ ok part
slice-middle pre part rest start len hs hl =
    ground (arith, length-append pre (part ++ rest), length-append part rest, taken)
  where
    taken : take len (drop start (pre ++ (part ++ rest))) ≡ part
    taken =
        ap (λ k. take len (drop k (pre ++ (part ++ rest)))) (sym hs)
        ∙ ap (take len) (drop-exact pre (part ++ rest))
        ∙ ap (λ k. take k (part ++ rest)) (sym hl)
        ∙ take-exact part rest

abbrev pub concat : List (List ℕ) → List ℕ
concat [] = []
concat (l ∷ ls) = l ++ concat ls

parse_entries-concat :
    (parts : List (List ℕ)) (i : ℕ) (pre rest : List ℕ)
    → length pre ≡ 0x1BE + i * 16
    → All (λ part. length part ≡ 16) parts
    → parse_entries (length parts) i (pre ++ (concat parts ++ rest)) ≡ ok parts
unfolding parse_entries
parse_entries-concat [] i pre rest h sizes = refl
parse_entries-concat (part ∷ parts) i pre rest h (size, sizes) =
    let found : slice (pre ++ ((part ++ concat parts) ++ rest)) (0x1BE + i * 16) 16 ≡ ok part =
      ap (λ l. slice (pre ++ l) (0x1BE + i * 16) 16) (append_assoc part (concat parts) rest)
      ∙ slice-middle pre part (concat parts ++ rest) (0x1BE + i * 16) 16 h size in
    let others : parse_entries (length parts) (i + 1) (pre ++ ((part ++ concat parts) ++ rest))
        ≡ ok parts =
      ap (parse_entries (length parts) (i + 1)) (
        ap (λ l. pre ++ l) (append_assoc part (concat parts) rest)
        ∙ sym (append_assoc pre part (concat parts ++ rest)))
      ∙ parse_entries-concat parts (i + 1) (pre ++ part) rest (length-append pre part ∙ omega arith)
          sizes in
    ground arith

-- If the first block of a disk is a boot program of 446 bytes, four entries of 16 bytes and any
-- rest, `parse` answers the table of just these entries.
pub parse-written :
    {S : Type 0} (device : BlockDevice S) (s : S) (boot rest : List ℕ) (parts : List (List ℕ))
    → device.read_block s 0 ≡ ok (boot ++ (concat parts ++ rest))
    → length boot ≡ 446
    → length parts ≡ 4
    → All (λ part. length part ≡ 16) parts
    → parse device s ≡ ok (record { inner = device; partitions = parts })
unfolding parse
parse-written device s boot rest parts read boot_size four sizes =
    let entries : parse_entries 4 0 (boot ++ (concat parts ++ rest)) ≡ ok parts =
      ap (λ n. parse_entries n 0 (boot ++ (concat parts ++ rest))) (sym four)
      ∙ parse_entries-concat parts 0 boot rest boot_size sizes in
    ground arith
