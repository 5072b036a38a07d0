-- ===== src/Proc/Resources/Descriptors.antt =====
-- Descriptors: no open handle is overwritten while fewer than 256 descriptors are in circulation.
use operating_system_experim.Prelude.{
  ℕ, suc, ◌+◌, ◌%◌, ◌^◌, ◌≤◌, ◌<◌, ◌≡◌, refl, ap, subst, ◌≢◌, inl, inr, none, some, List, [], ◌∷◌,
  arith, Option-cases, is_some, length, All, All-map, All-map₂, Distinct, lookup, insert, erase,
  IsMap, lookup-insert, lookup-insert_self, lookup-erase, insert-IsMap, erase-IsMap, length-insert,
  length-erase,
}
use operating_system_experim.Proc.Resources.{Resource, ResourceSet, open_handle, close, default}

-- The descriptors handed out so far are those below the number of handles and recycled ones
-- together; a recycled one is closed, and stands once on the stack.
module _ {File : Type 0} where
  abbrev pub total : ResourceSet File → ℕ
  total r = length r.handles + length r.recycled

  pub record IsValid (r : ResourceSet File) : Type 0 where
    pub keyed : IsMap r.handles
    pub bounded : (fd : ℕ) (h : Resource File) → lookup fd r.handles ≡ some h → fd < total r
    pub closed : All (λ fd. lookup fd r.handles ≡ none) r.recycled
    pub in_range : All (λ fd. fd < total r) r.recycled
    pub distinct : Distinct r.recycled

  absent_of_bound :
      (r : ResourceSet File) (fd : ℕ) → IsValid r → total r ≤ fd → lookup fd r.handles ≡ none
  absent_of_bound r fd v h = elim (Option-cases (lookup fd r.handles)) [
    | inl e ↦ e
    | inr (res, e) ↦ absurd (omega (arith, v.bounded fd res e))
  ]

  -- A handle put under a free descriptor.
  module _ (r : ResourceSet File) (fd : ℕ) (res : Resource File) (rest : List ℕ) where
    put : ResourceSet File
    put = record { handles = insert fd res r.handles; recycled = rest }

    total-put : lookup fd r.handles ≡ none → total put ≡ suc (length r.handles + length rest)
    unfolding put
    total-put e = ground (arith, length-insert fd res r.handles)

    put-IsValid :
        IsValid r
        → lookup fd r.handles ≡ none
        → fd < total put
        → total r ≤ total put
        → All (λ k. k ≢ fd) rest
        → All (λ k. lookup k r.handles ≡ none) rest
        → All (λ k. k < total r) rest
        → Distinct rest
        → IsValid put
    unfolding put
    put-IsValid v e lt grow apart free range d = record {
      keyed = insert-IsMap fd res r.handles v.keyed;
      bounded = λ k h p. ground (arith, lookup-insert fd k res r.handles, v.bounded k h);
      closed =
          All-map₂ (λ k. k ≢ fd) (λ k. lookup k r.handles ≡ none)
            (λ k. lookup k (insert fd res r.handles) ≡ none)
            (λ k ne p. ground (arith, lookup-insert fd k res r.handles)) rest apart free;
      in_range = All-map (λ k. k < total r) (λ k. k < total put) (λ k p. omega arith) rest range;
      distinct = d;
    }

  close-IsValid : (r : ResourceSet File) (fd : ℕ) → IsValid r → IsValid (close r fd).0
  unfolding close
  close-IsValid r fd v = elim (Option-cases (lookup fd r.handles)) [
    | inl e ↦ rw (e, close) v
    | inr (res, e) ↦ rw (e, close) (shut res e)
  ]
    where
      shut :
          (res : Resource File)
          → lookup fd r.handles ≡ some res
          → IsValid (record { handles = erase fd r.handles; recycled = fd ∷ r.recycled })
      shut res e = record {
        keyed = erase-IsMap fd r.handles v.keyed;
        bounded = λ k h p. ground (
          arith,
          lookup-erase fd k r.handles,
          v.bounded k h,
          length-erase fd r.handles {v = res} v.keyed e,
        );
        closed = (
          ground (arith, lookup-erase fd fd r.handles),
          All-map (λ k. lookup k r.handles ≡ none) (λ k. lookup k (erase fd r.handles) ≡ none)
              (λ k p. ground (arith, lookup-erase fd k r.handles)) r.recycled v.closed,
        );
        in_range = (
          omega (arith, v.bounded fd res e, length-erase fd r.handles {v = res} v.keyed e),
          All-map (λ k. k < total r)
              (λ k. k < length (erase fd r.handles) + suc (length r.recycled))
              (λ k p. omega (arith, length-erase fd r.handles {v = res} v.keyed e)) r.recycled
              v.in_range,
        );
        distinct = (
          All-map (λ k. lookup k r.handles ≡ none) (λ k. k ≢ fd) (λ k p q. ground arith) r.recycled
              v.closed,
          v.distinct,
        );
      }

  -- What opening `res` is to do: a descriptor that was closed now names `res`, all other open
  -- handles stay, and the set stays valid.
  pub record Opens (r : ResourceSet File) (res : Resource File) : Type 0 where
    pub fresh : lookup (open_handle r res).1 r.handles ≡ none
    pub opened : lookup (open_handle r res).1 (open_handle r res).0.handles ≡ some res
    pub kept :
        (k : ℕ) (h : Resource File)
        → lookup k r.handles ≡ some h
        → lookup k (open_handle r res).0.handles ≡ some h
    pub valid : IsValid (open_handle r res).0

  put-Opens :
      (r : ResourceSet File) (res : Resource File) (fd : ℕ) (rest : List ℕ)
      → open_handle r res ≡ (put r fd res rest, fd)
      → lookup fd r.handles ≡ none
      → IsValid (put r fd res rest)
      → Opens r res
  unfolding put
  put-Opens r res fd rest e free v = record {
    fresh = rw e free;
    opened = rw e (lookup-insert_self fd res r.handles);
    kept = λ k h p. rw e (ground (arith, lookup-insert fd k res r.handles));
    valid = rw e v;
  }

  open-Opens_queue :
      (r : ResourceSet File) (res : Resource File) (q : List ℕ)
      → r.recycled ≡ q
      → IsValid r
      → total r < 256
      → Opens r res
  unfolding open_handle put
  open-Opens_queue r res [] e v small = put-Opens r res fd [] (ground arith) free (
      put-IsValid r fd res [] v free (omega (arith, total-put r fd res [] free, ap length e))
        (omega (arith, total-put r fd res [] free, ap length e)) tt tt tt tt)
    where
      fd : ℕ
      fd = length r.handles % 2 ^ 8

      free : lookup fd r.handles ≡ none
      free = absent_of_bound r fd v (omega (arith, ap length e))
  open-Opens_queue r res (fd ∷ rest) e v small = put-Opens r res fd rest (ground arith) closed.0 (
      put-IsValid r fd res rest v closed.0
        (omega (arith, total-put r fd res rest closed.0, ap length e, in_range.0))
        (omega (arith, total-put r fd res rest closed.0, ap length e)) distinct.0 closed.1
        in_range.1 distinct.1)
    where
      closed : All (λ k. lookup k r.handles ≡ none) (fd ∷ rest)
      closed = subst (All (λ k. lookup k r.handles ≡ none)) e v.closed

      in_range : All (λ k. k < total r) (fd ∷ rest)
      in_range = subst (All (λ k. k < total r)) e v.in_range

      distinct : Distinct (fd ∷ rest)
      distinct = subst Distinct e v.distinct

  -- While fewer than 256 descriptors are in circulation, opening a resource gives it a descriptor
  -- that was closed, keeps every open handle, and leaves a valid set.
  pub open-Opens :
      (r : ResourceSet File) (res : Resource File) → IsValid r → total r < 256 → Opens r res
  open-Opens r res v small = open-Opens_queue r res r.recycled refl v small

  -- With 256 handles open and none recycled the descriptor wraps to 0, and the resource that was
  -- open there, the console's input at the start, is replaced.
  pub open_wraps :
      (r : ResourceSet File) (res : Resource File)
      → length r.handles ≡ 256
      → r.recycled ≡ []
      → ((open_handle r res).1 ≡ 0) × (lookup 0 (open_handle r res).0.handles ≡ some res)
  unfolding open_handle
  open_wraps r res full none_closed =
      (ground arith, ground (arith, lookup-insert_self 0 res r.handles))

  pub default-IsValid : IsValid default
  unfolding default lookup insert
  default-IsValid = record {
    keyed = (refl, (refl, (refl, tt)));
    bounded = λ fd h p. ground arith;
    closed = tt;
    in_range = tt;
    distinct = tt;
  }

  -- Closing answers whether the descriptor was open; after it the descriptor is closed, the other
  -- handles are as they were, and the set is valid.
  pub close_lem :
      (r : ResourceSet File) (fd : ℕ)
      → IsValid r
      → ((close r fd).1 ≡ is_some (lookup fd r.handles))
        × (lookup fd (close r fd).0.handles ≡ none)
        × ((k : ℕ) → k ≢ fd → lookup k (close r fd).0.handles ≡ lookup k r.handles)
        × IsValid (close r fd).0
  unfolding close
  close_lem r fd v = (
    ground arith,
    ground (arith, lookup-erase fd fd r.handles),
    λ k ne. ground (arith, lookup-erase fd k r.handles),
    close-IsValid r fd v,
  )
