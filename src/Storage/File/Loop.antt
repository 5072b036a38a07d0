-- ===== src/Storage/File/Loop.antt =====
-- What the whole loop of `read` gives: fs/fat16/file.rs of pkg/storage/src.
use operating_system_experim.Prelude.{
  ℕ, zero, suc, ◌+◌, ◌-◌, ◌*◌, ◌/◌, ◌%◌, ◌≤◌, ◌<◌, min, ◌≡◌, refl, sym, ap, ◌∙◌, ◌≢◌, inl, inr,
  List, [], ◌∷◌, ◌++◌, arith, ltb, ltb→lt, ltb→ge, Bool-cases, length, take, drop, length-append,
  length-take, length-drop, take-nil,
}
use native.Mathlib.Nat.{mod-lt, div-add-mod', mul-mod_left}
use operating_system_experim.Storage.Outcome.{ok}
use operating_system_experim.Storage.ShortName.{Text}
use operating_system_experim.Storage.Bpb.{sectors_per_cluster}
use operating_system_experim.Storage.Fat.{cluster_to_sector}
use operating_system_experim.Storage.File.{File, cluster_size, read_from_cluster, read_loop}
use operating_system_experim.Storage.File.Content.{
  IsReadable, cluster_bytes, IsChain, content, length-sectors, take-drop_append,
  read_from_cluster_lem,
}
use operating_system_experim.Storage.File.Rounds.{
  head_of, rest_of, content-rest, Gives, Gives-nothing, Gives-after, moved_on, round-last,
  round-ends, round-moves, round-none,
}

-- From an offset on, the rest of its block of `m` ends at a multiple of `m`.
edge_lem : (n m : ℕ) → 0 < m → (n + (m - n % m)) % m ≡ 0
edge_lem n m h = ap (λ k. k % m) sum ∙ mul-mod_left (n / m + 1) m
  where
    mod_lt : n % m < m
    mod_lt = mod-lt n h

    sum : n + (m - n % m) ≡ (n / m + 1) * m
    sum = ground (arith, div-add-mod' n m, mod_lt)

-- What the loop gives, for every file that is on a chain.
abbrev pub LoopGives : Text → (ℕ → List ℕ) → ℕ → ℕ → Type 0
LoopGives t D fuel want =
    (f : File t) (bytes cs : List ℕ)
    → IsChain f.handle D f.current_cluster cs
    → cluster_size f.handle ≢ 0
    → want ≤ length bytes + fuel
    → Gives f bytes
        (take (want - length bytes)
          (drop (f.offset % cluster_size f.handle) (content f.handle D f.current_cluster cs)))
        (read_loop fuel f want bytes)

module _ {t : Text} (D : ℕ → List ℕ) where
  module _ (fuel : ℕ) (want : ℕ) (later : LoopGives t D fuel want) (f : File t) (bytes : List ℕ)
      (real : cluster_size f.handle ≢ 0) (left : length bytes < want)
      (readable : IsReadable f.handle D
        (cluster_to_sector f.handle f.current_cluster)
        (sectors_per_cluster f.handle.bpb))
      (enough : want ≤ length bytes + suc fuel) where
    abbrev here : ℕ
    here = f.offset % cluster_size f.handle

    abbrev chunk : ℕ
    chunk = min (want - length bytes) (cluster_size f.handle - here)

    abbrev more : List ℕ
    more = take chunk (drop here (cluster_bytes f.handle D f.current_cluster))

    here_lt : here < cluster_size f.handle
    here_lt = mod-lt f.offset (ground arith)

    length-cluster : length (cluster_bytes f.handle D f.current_cluster) ≡ cluster_size f.handle
    length-cluster =
        length-sectors f.handle D (sectors_per_cluster f.handle.bpb)
          (cluster_to_sector f.handle f.current_cluster) readable

    got : read_from_cluster f.handle f.current_cluster here chunk ≡ ok more
    got = read_from_cluster_lem f.handle D f.current_cluster here chunk readable here_lt

    length-more : length more ≡ chunk
    length-more = ground (
      arith,
      length-take chunk (drop here (cluster_bytes f.handle D f.current_cluster)),
      length-drop here (cluster_bytes f.handle D f.current_cluster),
      length-cluster,
    )

    length-so_far : length (bytes ++ more) ≡ length bytes + chunk
    length-so_far = length-append bytes more ∙ ap (λ k. length bytes + k) length-more

    -- The bytes of the chain from here on start with those of the cluster.
    split :
        (cs : List ℕ)
        → take (want - length bytes) (drop here (content f.handle D f.current_cluster cs))
          ≡ more ++ take (want - length (bytes ++ more)) (rest_of f.handle D cs)
    split cs =
        let B = cluster_bytes f.handle D f.current_cluster in
        let R = rest_of f.handle D cs in
        let w = want - length bytes in
        ap (λ l. take w (drop here l)) (content-rest f.handle D f.current_cluster cs)
        ∙ take-drop_append w here B R (omega (arith, here_lt, length-cluster))
        ∙ ap (λ k. take (min w (k - here)) (drop here B) ++ take (w - min w (k - here)) R)
            length-cluster
        ∙ ap (λ k. more ++ take k R) (omega (arith, length-so_far))

    last :
        (cs : List ℕ)
        → IsChain f.handle D f.current_cluster cs
        → want - length bytes ≤ cluster_size f.handle - here
        → Gives f bytes
            (take (want - length bytes) (drop here (content f.handle D f.current_cluster cs)))
            (read_loop (suc fuel) f want bytes)
    last cs chain short =
        let f1 = moved_on fuel f want bytes more left chunk refl got length-more in
        let none_left : want - length (bytes ++ more) ≡ 0 = omega (arith, length-so_far) in
        Gives-after f f1 bytes more _ _ _ (read_loop fuel f1 want (bytes ++ more))
          (split cs
            ∙ ap (λ k. more ++ take k (rest_of f.handle D cs)) none_left
            ∙ ap
                (λ k.
                  more
                  ++ take k (
                      drop (f1.offset % cluster_size f.handle)
                        (content f.handle D f.current_cluster cs)))
                (sym none_left))
          refl refl refl
          (round-last fuel f want bytes more left chunk refl got length-more
            (omega (arith, length-so_far)))
          (later f1 (bytes ++ more) cs chain real (omega (arith, length-so_far)))

    at_edge :
        cluster_size f.handle - here < want - length bytes
        → (f.offset + length more) % cluster_size f.handle ≡ 0
    at_edge long =
        ap (λ k. (f.offset + k) % cluster_size f.handle) (length-more ∙ omega arith)
        ∙ edge_lem f.offset (cluster_size f.handle) (ground arith)

    edge :
        (cs : List ℕ)
        → IsChain f.handle D f.current_cluster cs
        → cluster_size f.handle - here < want - length bytes
        → Gives f bytes
            (take (want - length bytes) (drop here (content f.handle D f.current_cluster cs)))
            (read_loop (suc fuel) f want bytes)
    edge [] (c_real, next, _) long =
        let f1 = moved_on fuel f want bytes more left chunk refl got length-more in
        Gives-after f f1 bytes more _ [] _ (f1, bytes ++ more, ok (length (bytes ++ more)))
          (split [] ∙ ap (λ l. more ++ l) (take-nil (want - length (bytes ++ more)))) refl refl refl
          (round-ends fuel f want bytes more left chunk refl got length-more
            (omega (arith, length-so_far)) (at_edge long) c_real next)
          (Gives-nothing f1 (bytes ++ more) [] 0 _ refl refl)
    edge (c ∷ cs) ((c_real, next, _), chain) long =
        let f1 = moved_on fuel f want bytes more left chunk refl got length-more in
        let f2 = record f1 { current_cluster = c } in
        Gives-after f f2 bytes more _ _ _ (read_loop fuel f2 want (bytes ++ more))
          (split (c ∷ cs)
            ∙ ap
                (λ k.
                  more ++ take (want - length (bytes ++ more)) (drop k (content f.handle D c cs)))
                (sym (at_edge long)))
          refl refl refl
          (round-moves fuel f want bytes more left chunk refl got length-more c
            (omega (arith, length-so_far)) (at_edge long) c_real next)
          (later f2 (bytes ++ more) cs chain real (omega (arith, length-so_far)))

  pub read_loop_lem : (fuel want : ℕ) → LoopGives t D fuel want
  read_loop_lem zero want f bytes cs chain real enough =
      Gives-nothing f bytes _ (want - length bytes) _ (omega arith)
        (round-none 0 f want bytes (omega arith))
  read_loop_lem (suc fuel) want f bytes cs chain real enough =
      elim (Bool-cases (ltb (length bytes) want)) [
        | inr full ↦
            Gives-nothing f bytes _ (want - length bytes) _ (ground arith)
              (round-none (suc fuel) f want bytes (ltb→ge (length bytes) want full))
        | inl more_left ↦
            let later = read_loop_lem fuel want in
            let left = ltb→lt (length bytes) want more_left in
            let readable = (head_of f.handle D f.current_cluster cs chain).1 in
            let here = f.offset % cluster_size f.handle in
            elim (Bool-cases (ltb (cluster_size f.handle - here) (want - length bytes))) [
              | inl long ↦
                  edge fuel want later f bytes real left readable enough cs chain
                    (ltb→lt (cluster_size f.handle - here) (want - length bytes) long)
              | inr short ↦
                  last fuel want later f bytes real left readable enough cs chain
                    (ltb→ge (cluster_size f.handle - here) (want - length bytes) short)
            ]
      ]
