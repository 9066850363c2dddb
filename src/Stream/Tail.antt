-- ===== src/Stream/Tail.antt =====
-- The tail of a cut body that begins a credential.
use percentes.Base.{
  ℕ, zero, suc, ◌+◌, ◌-◌, ◌≡◌, ◌<◌, ◌≤◌, refl, sym, ap, ◌∙◌, ◌⊎◌, inl, inr, true, false, some, List,
  [], ◌∷◌, ◌++◌, nat_eq, arith, ltb, leb, length, length-append, take, drop, get_elem?, Bool-cases,
}
use mathlib.Core.Path.{subst}
use percentes.Stream.Frames.{
  longest_tail, tail_from, has_suffix, asterisks, mask_secret_prefix_tail,
}

-- The first `k` bytes of a secret, not all of them, end the body.
pub record Begins (b s : List ℕ) (k : ℕ) : Type 0 where
  pub proper : k < length s
  pub at_end : has_suffix (take k s) b ≡ true

record TailTo (b s : List ℕ) (top longest m : ℕ) : Type 0 where
  no_less : longest ≤ m
  greatest : (k : ℕ) → k ≤ top → has_suffix (take k s) b ≡ true → k ≤ m
  found : (m ≡ longest) ⊎ ((m ≤ top) × (has_suffix (take m s) b ≡ true))

below_top :
    (b s : List ℕ) (k j m : ℕ)
    → j ≤ suc k
    → has_suffix (take j s) b ≡ true
    → has_suffix (take (suc k) s) b ≡ false
    → (j ≤ k → has_suffix (take j s) b ≡ true → j ≤ m)
    → j ≤ m
below_top b s k j m le h miss below = elim (Bool-cases (leb j k)) [
  | inl small ↦ below (ground arith) h
  | inr large ↦
      let e : j ≡ suc k = ground arith in
      let h' : has_suffix (take (suc k) s) b ≡ true =
        subst (λ n. has_suffix (take n s) b ≡ true) e h in
      absurd (ground arith)
]

still_found :
    (b s : List ℕ) (k : ℕ) {longest m : ℕ}
    → (m ≡ longest) ⊎ ((m ≤ k) × (has_suffix (take m s) b ≡ true))
    → (m ≡ longest) ⊎ ((m ≤ suc k) × (has_suffix (take m s) b ≡ true))
still_found b s k (inl e) = inl e
still_found b s k (inr (le, h)) = inr (omega (arith, le), h)

tail_from-TailTo : (s b : List ℕ) (longest k : ℕ) → TailTo b s k longest (tail_from s b longest k)
unfolding tail_from
tail_from-TailTo s b longest zero = record {
  no_less = omega arith;
  greatest = λ k le h. omega (arith, le);
  found = inl refl;
}
tail_from-TailTo s b longest (suc k) =
    let ih = tail_from-TailTo s b longest k in
    elim (Bool-cases (ltb longest (suc k))) [
      | inl more ↦ elim (Bool-cases (has_suffix (take (suc k) s) b)) [
        | inl hit ↦
            rw (more, hit)
              (record {
                no_less = ground arith;
                greatest = λ j le h. le;
                found = inr (omega arith, hit);
              })
        | inr miss ↦
            rw (more, miss)
              (record {
                no_less = ih.no_less;
                greatest = λ j le h. below_top b s k j _ le h miss (ih.greatest j);
                found = still_found b s k ih.found;
              })
      ]
      | inr done ↦
          rw done
            (record { no_less = omega arith; greatest = λ j le h. ground arith; found = inl refl })
    ]

-- Of some secrets one begins so, or the length is the one that was held before.
abbrev pub IsFound : List ℕ → List (List ℕ) → ℕ → ℕ → Type 0
IsFound b [] longest m = m ≡ longest
IsFound b (s ∷ secrets) longest m = Begins b s m ⊎ IsFound b secrets longest m

record Longest (b : List ℕ) (secrets : List (List ℕ)) (longest m : ℕ) : Type 0 where
  no_less : longest ≤ m
  greatest : (i k : ℕ) (s : List ℕ) → get_elem? secrets i ≡ some s → Begins b s k → k ≤ m
  found : IsFound b secrets longest m

IsFound-none : (b : List ℕ) (secrets : List (List ℕ)) (m : ℕ) → IsFound b secrets m m
IsFound-none b [] m = refl
IsFound-none b (s ∷ secrets) m = inr (IsFound-none b secrets m)

no_greater :
    (s : List ℕ) (secrets : List (List ℕ)) (b : List ℕ) (i k : ℕ) (r : List ℕ) (mid m : ℕ)
    → ((k : ℕ) → k ≤ length s - 1 → has_suffix (take k s) b ≡ true → k ≤ mid)
    → mid ≤ m
    → ((i k : ℕ) (s : List ℕ) → get_elem? secrets i ≡ some s → Begins b s k → k ≤ m)
    → get_elem? (s ∷ secrets) i ≡ some r
    → Begins b r k
    → k ≤ m
no_greater s secrets b zero k r mid m first le rest at h =
    let e : s ≡ r = cc in
    let at_end : has_suffix (take k s) b ≡ true =
      subst (λ x. has_suffix (take k x) b ≡ true) (sym e) h.at_end in
    omega (arith, first k (omega (arith, h.proper, ap length e)) at_end, le)
no_greater s secrets b (suc i) k r mid m first le rest at h = rest i k r at h

IsFound-or :
    (b : List ℕ) (secrets : List (List ℕ)) (longest mid m : ℕ)
    → IsFound b secrets mid m
    → IsFound b secrets longest m ⊎ (m ≡ mid)
IsFound-or b [] longest mid m h = inr h
IsFound-or b (s ∷ secrets) longest mid m (inl h) = inl (inl h)
IsFound-or b (s ∷ secrets) longest mid m (inr h) = elim (IsFound-or b secrets longest mid m h) [
  | inl k ↦ inl (inr k)
  | inr e ↦ inr e
]

tail_from-empty : (b : List ℕ) (longest : ℕ) → tail_from [] b longest (0 - 1) ≡ longest
unfolding tail_from
tail_from-empty b longest = refl

IsFound-first :
    (s b : List ℕ) (longest : ℕ) (secrets : List (List ℕ)) (m : ℕ)
    → (tail_from s b longest (length s - 1) ≡ longest)
      ⊎ ((tail_from s b longest (length s - 1) ≤ length s - 1)
          × (has_suffix (take (tail_from s b longest (length s - 1)) s) b ≡ true))
    → IsFound b secrets (tail_from s b longest (length s - 1)) m
    → IsFound b (s ∷ secrets) longest m
IsFound-first s b longest secrets m (inl e) h = inr (subst (λ n. IsFound b secrets n m) e h)
IsFound-first [] b longest secrets m (inr hit) h =
    inr (subst (λ n. IsFound b secrets n m) (tail_from-empty b longest) h)
IsFound-first (c ∷ s) b longest secrets m (inr (le, hit)) h =
    elim (IsFound-or b secrets longest (tail_from (c ∷ s) b longest (length (c ∷ s) - 1)) m h) [
      | inl k ↦ inr k
      | inr e ↦ inl (record {
        proper = omega (arith, le, e);
        at_end = subst (λ n. has_suffix (take n (c ∷ s)) b ≡ true) (sym e) hit;
      })
    ]

longest_tail-Longest :
    (secrets : List (List ℕ)) (b : List ℕ) (longest : ℕ)
    → Longest b secrets longest (longest_tail secrets b longest)
unfolding longest_tail
longest_tail-Longest [] b longest = record {
  no_less = omega arith;
  greatest = λ i k s at h. absurd (ground arith);
  found = refl;
}
longest_tail-Longest (s ∷ secrets) b longest =
    let mid = tail_from s b longest (length s - 1) in
    let one = tail_from-TailTo s b longest (length s - 1) in
    let ih = longest_tail-Longest secrets b mid in
    record {
      no_less = omega (arith, one.no_less, ih.no_less);
      greatest =
          λ i k r at h. no_greater s secrets b i k r mid _ one.greatest ih.no_less ih.greatest at h;
      found = IsFound-first s b longest secrets _ one.found ih.found;
    }

length-take : (n : ℕ) (s : List ℕ) → n ≤ length s → length (take n s) ≡ n
length-take zero s h = refl
length-take (suc n) [] h = absurd (omega (arith, h))
length-take (suc n) (c ∷ s) h = ap suc (length-take n s (omega (arith, h)))

Begins-le : (b s : List ℕ) (k : ℕ) → Begins b s k → k ≤ length b
unfolding has_suffix
Begins-le b s k h =
    let fits : length (take k s) ≤ length b = ground (arith, h.at_end) in
    omega (arith, length-take k s, h.proper, fits)

IsFound-le : (b : List ℕ) (secrets : List (List ℕ)) (m : ℕ) → IsFound b secrets 0 m → m ≤ length b
IsFound-le b [] m h = omega (arith, h)
IsFound-le b (s ∷ secrets) m (inl h) = Begins-le b s m h
IsFound-le b (s ∷ secrets) m (inr h) = IsFound-le b secrets m h

longest_tail-le : (secrets : List (List ℕ)) (b : List ℕ) → longest_tail secrets b 0 ≤ length b
longest_tail-le secrets b = IsFound-le b secrets _ (longest_tail-Longest secrets b 0).found

length-asterisks : (n : ℕ) → length (asterisks n) ≡ n
unfolding asterisks
length-asterisks zero = refl
length-asterisks (suc n) = ap suc (length-asterisks n)

drop-asterisks : (j k : ℕ) → drop j (asterisks (j + k)) ≡ asterisks k
unfolding asterisks
drop-asterisks zero k = let e : 0 + k ≡ k = omega arith in ap asterisks e
drop-asterisks (suc j) k =
    let e : suc j + k ≡ suc (j + k) = omega arith in
    ap (λ n. drop (suc j) (asterisks n)) e ∙ drop-asterisks j k

drop-append : (n : ℕ) (xs ys : List ℕ) → drop (length xs + n) (xs ++ ys) ≡ drop n ys
drop-append n [] ys = let e : 0 + n ≡ n = omega arith in ap (λ k. drop k ys) e
drop-append n (x ∷ xs) ys =
    let e : suc (length xs) + n ≡ suc (length xs + n) = omega arith in
    ap (λ k. drop k (x ∷ (xs ++ ys))) e ∙ drop-append n xs ys

pub length-mask_secret_prefix_tail :
    (b : List ℕ) (secrets : List (List ℕ)) → length (mask_secret_prefix_tail b secrets) ≡ length b
unfolding mask_secret_prefix_tail
length-mask_secret_prefix_tail b secrets =
    let m = longest_tail secrets b 0 in
    omega (
      arith,
      length-append (take (length b - m) b) (asterisks m),
      length-take (length b - m) b,
      length-asterisks m,
      longest_tail-le secrets b,
    )

-- Where a body ends with the first `k` bytes of a secret, but not with all of it, its last `k` bytes are
-- asterisks once its tail is masked; the length stays.
pub mask_secret_prefix_tail-asterisks :
    (b : List ℕ) (secrets : List (List ℕ)) (i k : ℕ) (s : List ℕ)
    → get_elem? secrets i ≡ some s
    → Begins b s k
    → (drop (length b - k) (mask_secret_prefix_tail b secrets) ≡ asterisks k)
      × (length (mask_secret_prefix_tail b secrets) ≡ length b)
unfolding mask_secret_prefix_tail
mask_secret_prefix_tail-asterisks b secrets i k s at h =
    let m = longest_tail secrets b 0 in
    let le : k ≤ m = (longest_tail-Longest secrets b 0).greatest i k s at h in
    let kept = take (length b - m) b in
    let whole : length kept ≡ length b - m = length-take (length b - m) b (omega arith) in
    let fits : m ≤ length b = longest_tail-le secrets b in
    let from : length b - k ≡ length kept + (m - k) = omega arith in
    let split : m ≡ m - k + k = omega arith in
    (
      ap (λ n. drop n (kept ++ asterisks m)) from
          ∙ drop-append (m - k) kept (asterisks m)
          ∙ ap (λ n. drop (m - k) (asterisks n)) split
          ∙ drop-asterisks (m - k) k,
      length-mask_secret_prefix_tail b secrets,
    )
