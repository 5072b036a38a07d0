-- ===== src/Storage/File/Whole.antt =====
-- `read_all` of common/io.rs on a file, and what `read_file_data` of fs/fat16/impls.rs does in its
-- place (pkg/storage/src).
use operating_system_experim.Prelude.{
  ℕ, zero, suc, ◌-◌, ◌≤◌, ◌<◌, ◌≡◌, refl, sym, ap, subst, ◌∙◌, ◌≢◌, inl, inr, List, [], ◌∷◌, ◌++◌,
  append-nil, arith, ◌==◌, ==→eq, ==→ne, Bool-cases, length, take, drop, length-take, length-drop,
  drop-drop, take-drop_split,
}
use operating_system_experim.Storage.Outcome.{ok, panic}
use operating_system_experim.Storage.ShortName.{Text}
use operating_system_experim.Storage.DirEntry.{DirEntry}
use operating_system_experim.Storage.Bpb.{bytes_per_sector, sectors_per_cluster}
use operating_system_experim.Storage.Fat.{Fat16Impl, cluster_to_sector}
use operating_system_experim.Storage.File.{
  File, cluster_size, read, read_all, read_file_data, skip_clusters, data_clusters, data_sectors,
}
use operating_system_experim.Storage.File.Content.{IsChain, content}
use operating_system_experim.Storage.File.Rounds.{Gives, Gives-after}
use operating_system_experim.Storage.File.Reading.{read-content}

empty_take : (xs : List ℕ) → length (take 1024 xs) ≡ 0 → xs ≡ []
empty_take [] h = refl
empty_take (x ∷ xs) h = absurd (omega arith)

module _ {t : Text} (D : ℕ → List ℕ) where
  -- The bytes of the file, by its volume, its entry and its chain.
  abbrev pub file_bytes : Fat16Impl → DirEntry t → List ℕ → List ℕ
  file_bytes fs e cs = take e.size (content fs D e.cluster cs)

  -- The chain of the entry can be read and is long enough.
  abbrev pub IsWhole : Fat16Impl → DirEntry t → List ℕ → Type 0
  IsWhole fs e cs =
      IsChain fs D e.cluster cs
      × (cluster_size fs ≢ 0)
      × (e.size ≤ length (content fs D e.cluster cs))

  read_all-step :
      (fuel : ℕ) (f f' : File t) (bytes piece : List ℕ)
      → read f 1024 ≡ (f', piece, ok (length piece))
      → length piece ≢ 0
      → read_all (suc fuel) f bytes ≡ read_all fuel f' (bytes ++ piece)
  unfolding read_all
  read_all-step fuel f f' bytes piece e some_read = ground arith

  read_all-stop :
      (fuel : ℕ) (f f' : File t) (bytes piece : List ℕ)
      → read f 1024 ≡ (f', piece, ok (length piece))
      → length piece ≡ 0
      → read_all (suc fuel) f bytes ≡ (f', bytes, ok (length bytes))
  unfolding read_all
  read_all-stop fuel f f' bytes piece e nothing_read = ground arith

  -- `read_all` on a file that can be read comes to an end, copies all the bytes from the offset to
  -- the end of the file and answers their number, if the fuel is more than the number of bytes left.
  pub read_all-content :
      (fuel : ℕ) (f : File t) (bytes cs : List ℕ)
      → IsWhole f.handle f.entry cs
      → f.entry.size - f.offset < fuel
      → Gives f bytes (drop f.offset (file_bytes f.handle f.entry cs)) (read_all fuel f bytes)
  read_all-content zero f bytes cs whole enough = absurd (omega arith)
  read_all-content (suc fuel) f bytes cs whole enough =
      let S = file_bytes f.handle f.entry cs in
      let piece = take 1024 (drop f.offset S) in
      let (f', e, offset', entry', handle') = read-content D f 1024 cs whole.0 whole.1 whole.2 in
      elim (Bool-cases (length piece == 0)) [
        | inl none_left ↦
            let nothing : drop f.offset S ≡ [] =
              empty_take (drop f.offset S) (==→eq (length piece) 0 none_left) in
            (
              f',
              read_all-stop fuel f f' bytes piece e (==→eq (length piece) 0 none_left)
                  ∙ ap (λ l. (f', l, ok (length l)))
                      (sym (append-nil bytes) ∙ ap (λ l. bytes ++ l) (sym nothing)),
              ground arith,
              entry',
              handle',
            )
        | inr some_left ↦
            let some_read = ==→ne (length piece) 0 some_left in
            let split : drop f.offset S
                ≡ piece ++ drop f'.offset (file_bytes f'.handle f'.entry cs) =
              sym (take-drop_split 1024 (drop f.offset S))
              ∙ ap (λ l. piece ++ l) (drop-drop (length piece) f.offset S)
              ∙ ap (λ k. piece ++ drop k S) (sym offset')
              ∙ ap (λ h. piece ++ drop f'.offset (file_bytes h f.entry cs)) (sym handle')
              ∙ ap (λ k. piece ++ drop f'.offset (file_bytes f'.handle k cs)) (sym entry') in
            let shorter : length piece ≤ f.entry.size - f.offset = ground (
              arith,
              length-take 1024 (drop f.offset S),
              length-drop f.offset S,
              length-take f.entry.size (content f.handle D f.entry.cluster cs),
            ) in
            Gives-after f f' bytes piece _ _ _ (read_all fuel f' (bytes ++ piece)) split offset'
              entry' handle' (read_all-step fuel f f' bytes piece e some_read)
              (read_all-content fuel f' (bytes ++ piece) cs
                (subst (λ k. IsWhole f'.handle k cs) (sym entry')
                  (subst (λ h. IsWhole h f.entry cs) (sym handle') whole))
                (ground arith))
      ]

-- `read_file_data` panics where the offset is in the first cluster but past the end of its first
-- sector, if that sector can be read and the buffer is not empty: its subtraction goes below zero.
pub read_file_data-panics :
    (fuel : ℕ) (fs : Fat16Impl) (c offset n : ℕ) (block : List ℕ)
    → offset < cluster_size fs
    → bytes_per_sector fs.bpb < offset
    → sectors_per_cluster fs.bpb ≢ 0
    → fs.inner (cluster_to_sector fs c) ≡ ok block
    → read_file_data (suc fuel) fs c offset (suc n) ≡ panic
unfolding read_file_data skip_clusters data_clusters data_sectors
read_file_data-panics fuel fs c offset n block inside past some_sectors found =
    first_sector (sectors_per_cluster fs.bpb) refl
  where
    first_sector :
        (k : ℕ)
        → sectors_per_cluster fs.bpb ≡ k
        → read_file_data (suc fuel) fs c offset (suc n) ≡ panic
    first_sector zero e = absurd (some_sectors e)
    first_sector (suc k) e = ground arith
