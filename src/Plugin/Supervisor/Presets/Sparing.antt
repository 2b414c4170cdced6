-- ===== src/Plugin/Supervisor/Presets/Sparing.antt =====
-- When refreshPresets of src/plugin/mnm_plugin.cpp deletes a catalog that it has replaced.
use schwung_monomodule.Prelude.{
  ℕ, suc, ◌+◌, ◌%◌, ◌<◌, ◌≡◌, ◌≢◌, ◌⊎◌, inl, inr, refl, ap, false, Option, none, some, List, [],
  ◌∷◌, ◌++◌, All, All-append, arith, leb, not_leb→lt, sym, subst, ◌∙◌, ==_iff, ◌==◌, if◌then◌else◌,
  Bool-cases, length,
}
use schwung_monomodule.Plugin.Supervisor.Presets.{
  Listed, Presets, Dumps, delete, is_current, expire, look, refresh_presets, refresh_all, initial,
}

-- The retired catalog is older than the published one.
record IsOrdered (p : Presets) : Type 0 where
  older : (r c : Listed) → p.retired ≡ some r → p.catalog ≡ some c → r.address < c.address
  given : (c : Listed) → p.catalog ≡ some c → c.address < p.allocated

-- A catalog is retired only between two looks at the files.
record IsTimed (p : Presets) : Type 0 where
  timed : (p.retired ≡ none) ⊎ ((p.retired_polls < 10) × (suc p.retired_polls ≡ p.dump_polls % 30))
  ordered : IsOrdered p

-- The same after the first line: none is retired where the files are looked at.
record IsExpired (p : Presets) : Type 0 where
  timed :
      (p.retired ≡ none)
      ⊎ ((0 < p.retired_polls) × (p.retired_polls < 10) × (p.retired_polls ≡ p.dump_polls % 30))
  ordered : IsOrdered p

-- The catalog `c` where it was published `n` polls ago: it still is, or it has been retired since.
abbrev IsKept : Listed → ℕ → Presets → Type 0
IsKept c n p = (p.catalog ≡ some c) ⊎ ((p.retired ≡ some c) × (p.retired_polls < n))

-- Of what a step deletes and leaves: the catalog `c` is spared.
record IsSpared (c : Listed) (n : ℕ) (r : List Listed × Presets) : Type 0 where
  spared : All (λ k. k ≢ c) r.0
  kept : IsKept c n r.1

expire-IsExpired : (p : Presets) → IsTimed p → IsExpired (expire p).1
unfolding expire
expire-IsExpired p h = cases p.retired refl
  where
    cases :
        (o : Option Listed)
        → p.retired ≡ o
        → IsExpired
            (elim o as (λ _. List Listed × Presets) [
              | none ↦ ([], p)
              | some c ↦
                  if leb 10 (suc p.retired_polls)
                  then (c ∷ [], record p { retired = none; retired_polls = suc p.retired_polls })
                  else ([], record p { retired_polls = suc p.retired_polls })
            ]).1
    cases none e = record { timed = inl e; ordered = h.ordered }
    cases (some c) e = elim (Bool-cases (leb 10 (suc p.retired_polls))) [
      | inl b ↦ rw b (record {
        timed = inl refl;
        ordered = record { older = λ r k q. ground (arith, q); given = h.ordered.given };
      })
      | inr b ↦ rw b (record {
        timed = inr (ticked h.timed e b);
        ordered = record { older = h.ordered.older; given = h.ordered.given };
      })
    ]
      where
        ticked :
            (p.retired ≡ none)
              ⊎ ((p.retired_polls < 10) × (suc p.retired_polls ≡ p.dump_polls % 30))
            → p.retired ≡ some c
            → leb 10 (suc p.retired_polls) ≡ false
            → (0 < suc p.retired_polls)
              × (suc p.retired_polls < 10)
              × (suc p.retired_polls ≡ p.dump_polls % 30)
        ticked (inl q) e b = ground (arith, q, e)
        ticked (inr (u, v)) e b = (omega arith, not_leb→lt 10 (suc p.retired_polls) b, v)

expire-IsSpared :
    (p : Presets) (c : Listed) (n : ℕ)
    → IsOrdered p
    → IsKept c n p
    → n < 10
    → IsSpared c (suc n) (expire p)
unfolding expire
expire-IsSpared p c n h (inl k) l = cases p.retired refl
  where
    cases :
        (o : Option Listed)
        → p.retired ≡ o
        → IsSpared c (suc n) (elim o as (λ _. List Listed × Presets) [
          | none ↦ ([], p)
          | some c ↦
              if leb 10 (suc p.retired_polls)
              then (c ∷ [], record p { retired = none; retired_polls = suc p.retired_polls })
              else ([], record p { retired_polls = suc p.retired_polls })
        ])
    cases none e = record { spared = tt; kept = inl k }
    cases (some r) e = elim (Bool-cases (leb 10 (suc p.retired_polls))) [
      | inl b ↦ rw b (record {
        spared = ((λ q. omega (arith, h.older r c e k, ap (λ (x : Listed). x.address) q)), tt);
        kept = inl k;
      })
      | inr b ↦ rw b (record { spared = tt; kept = inl k })
    ]
expire-IsSpared p c n h (inr (k, m)) l =
    let young : leb 10 (suc p.retired_polls) ≡ false = ground (arith, m, l) in
    let same : expire p ≡ ([], record p { retired_polls = suc p.retired_polls }) =
      ap
        (λ (o : Option Listed). elim o as (λ _. List Listed × Presets) [
          | none ↦ ([], p)
          | some c ↦
              if leb 10 (suc p.retired_polls)
              then (c ∷ [], record p { retired = none; retired_polls = suc p.retired_polls })
              else ([], record p { retired_polls = suc p.retired_polls })
        ])
        k
      ∙ ap
          (λ b.
            if b
            then (c ∷ [], record p { retired = none; retired_polls = suc p.retired_polls })
            else ([], record p { retired_polls = suc p.retired_polls }))
          young in
    subst (IsSpared c (suc n)) (sym same) (record { spared = tt; kept = inr (k, omega arith) })

look-IsTimed :
    (d : Dumps) (p : Presets)
    → p.retired ≡ none
    → p.dump_polls % 30 ≡ 1
    → IsOrdered p
    → IsTimed (look d p).1
unfolding look
look-IsTimed d p h e o = elim (Bool-cases (is_current p.catalog d)) [
  | inl b ↦ rw b (record { timed = inl h; ordered = o })
  | inr b ↦ rw b (record {
    timed = inr (omega arith, sym e);
    ordered = record {
      older = λ r c q k. subst (λ a. r.address < a) (ap (address_of p) k) (o.given r q);
      given = λ c k. subst (λ a. a < suc p.allocated) (ap (address_of p) k) (omega arith);
    };
  })
]
  where
    address_of : Presets → Option Listed → ℕ
    address_of p none = 0
    address_of p (some c) = c.address

look-IsSpared :
    (d : Dumps) (p : Presets) (c : Listed) (n : ℕ)
    → p.retired ≡ none
    → 0 < n
    → IsKept c n p
    → IsSpared c n (look d p)
unfolding look
look-IsSpared d p c n h l (inr (k, m)) = ground (arith, h, k)
look-IsSpared d p c n h l (inl k) = elim (Bool-cases (is_current p.catalog d)) [
  | inl b ↦ rw b (record { spared = tt; kept = inl k })
  | inr b ↦
      rw b
        (record { spared = subst (λ o. All (λ q. q ≢ c) (delete o)) (sym h) tt; kept = inr (k, l) })
]

abbrev counted : Presets → Presets
counted q = record q { dump_polls = suc q.dump_polls }

-- The second half of a poll, on the outcome of the first line.
abbrev polled : Dumps → List Listed × Presets → List Listed × Presets
polled d r =
    if r.1.dump_polls % 30 == 0
    then (r.0 ++ (look d (counted r.1)).0, (look d (counted r.1)).1)
    else (r.0, counted r.1)

nothing_retired : (q : Presets) → IsExpired q → q.dump_polls % 30 ≡ 0 → q.retired ≡ none
nothing_retired q h e = cases h.timed
  where
    cases :
        (q.retired ≡ none)
          ⊎ ((0 < q.retired_polls) × (q.retired_polls < 10) × (q.retired_polls ≡ q.dump_polls % 30))
        → q.retired ≡ none
    cases (inl k) = k
    cases (inr (a, b, c)) = absurd (omega arith)

polled-IsTimed : (d : Dumps) (r : List Listed × Presets) → IsExpired r.1 → IsTimed (polled d r).1
polled-IsTimed d (old, q) h = elim (Bool-cases (q.dump_polls % 30 == 0)) [
  | inl b ↦
      let e = (==_iff (q.dump_polls % 30) 0).0 b in
      rw b (
        look-IsTimed d (counted q) (nothing_retired q h e) (omega (arith, e))
          (record { older = h.ordered.older; given = h.ordered.given }))
  | inr b ↦ rw b (record {
    timed = ticked h.timed;
    ordered = record { older = h.ordered.older; given = h.ordered.given };
  })
]
  where
    ticked :
        (q.retired ≡ none)
          ⊎ ((0 < q.retired_polls) × (q.retired_polls < 10) × (q.retired_polls ≡ q.dump_polls % 30))
        → (q.retired ≡ none)
          ⊎ ((q.retired_polls < 10) × (suc q.retired_polls ≡ suc q.dump_polls % 30))
    ticked (inl k) = inl k
    ticked (inr (a, b, c)) = inr (b, omega arith)

polled-IsSpared :
    (d : Dumps) (r : List Listed × Presets) (c : Listed) (n : ℕ)
    → IsExpired r.1
    → 0 < n
    → IsSpared c n r
    → IsSpared c n (polled d r)
polled-IsSpared d (old, q) c n h l s = elim (Bool-cases (q.dump_polls % 30 == 0)) [
  | inl b ↦
      let none_left = nothing_retired q h ((==_iff (q.dump_polls % 30) 0).0 b) in
      let t = look-IsSpared d (counted q) c n none_left l s.kept in
      rw b (record { spared = All-append (λ k. k ≢ c) old _ s.spared t.spared; kept = t.kept })
  | inr b ↦ rw b (record { spared = s.spared; kept = s.kept })
]

refresh-IsTimed : (d : Dumps) (p : Presets) → IsTimed p → IsTimed (refresh_presets d p).1
unfolding refresh_presets
refresh-IsTimed d p h = polled-IsTimed d (expire p) (expire-IsExpired p h)

refresh-IsSpared :
    (d : Dumps) (p : Presets) (c : Listed) (n : ℕ)
    → IsTimed p
    → IsKept c n p
    → n < 10
    → IsSpared c (suc n) (refresh_presets d p)
unfolding refresh_presets
refresh-IsSpared d p c n h k l =
    polled-IsSpared d (expire p) c (suc n) (expire-IsExpired p h) (omega arith)
      (expire-IsSpared p c n h.ordered k l)

refresh_all-IsTimed : (ds : List Dumps) (p : Presets) → IsTimed p → IsTimed (refresh_all ds p)
unfolding refresh_all
refresh_all-IsTimed [] p h = h
refresh_all-IsTimed (d ∷ ds) p h = refresh_all-IsTimed ds _ (refresh-IsTimed d p h)

refresh_all-IsSpared :
    (ds : List Dumps) (d : Dumps) (p : Presets) (c : Listed) (n : ℕ)
    → IsTimed p
    → IsKept c n p
    → n + length ds < 10
    → All (λ k. k ≢ c) (refresh_presets d (refresh_all ds p)).0
unfolding refresh_all
refresh_all-IsSpared [] d p c n h k l = (refresh-IsSpared d p c n h k (omega arith)).spared
refresh_all-IsSpared (e ∷ ds) d p c n h k l =
    refresh_all-IsSpared ds d (refresh_presets e p).1 c (suc n) (refresh-IsTimed e p h)
      (refresh-IsSpared e p c n h k (omega arith)).kept (omega arith)

initial-IsTimed : IsTimed initial
initial-IsTimed = record {
  timed = inl refl;
  ordered = record { older = λ r c e k. ground (arith, e); given = λ c k. ground (arith, k) };
}

-- A catalog that is published after some polls from the start on is not among those that any of the
-- next ten polls deletes, whatever the dump files are at each poll.
pub refresh_presets_lem :
    (before during : List Dumps) (d : Dumps) (c : Listed)
    → (refresh_all before initial).catalog ≡ some c
    → length during < 10
    → All (λ k. k ≢ c) (refresh_presets d (refresh_all during (refresh_all before initial))).0
refresh_presets_lem before during d c e l =
    refresh_all-IsSpared during d (refresh_all before initial) c 0
      (refresh_all-IsTimed before initial initial-IsTimed) (inl e) (omega (arith, l))
