-- ===== src/Sbuf/Ended.antt =====
-- sbuf_end_share of src/sbuf.c: the shared buffers go back, or stay with their queues.
use solidircd.Base.{
  ℕ, ◌≡◌, ◌≢◌, ◌⊎◌, refl, subst, ◌∙◌, inl, inr, Bool, true, false, List, [], ◌∷◌, ◌==◌, ==_iff,
  ◌&&◌, ◌||◌, if◌then◌else◌, Option, none, some, arith, Bool-cases,
}
use solidircd.Sbuf.Owned.{count_in, pooled, Owned, IsOwned, Live}
use solidircd.Sbuf.Pool.{Pools, sbuf_free, large_buffer, small_buffer}
use solidircd.Sbuf.Share.{end_share, sbuf_end_share}

-- A buffer that is not among some shared ones
unfoldable pub Absent : ℕ → List (Option ℕ) → Type 0
Absent p [] = Unit
Absent p (none ∷ shares) = Absent p shares
Absent p (some q ∷ shares) = (p ≢ q) × Absent p shares

-- The shared buffers that a caller ends: each is in use, and stands there once.
unfoldable pub AllLive : Pools → (ℕ → ℕ) → List (Option ℕ) → Type 0
unfolding Absent
AllLive m refs [] = Unit
AllLive m refs (none ∷ shares) = AllLive m refs shares
AllLive m refs (some p ∷ shares) = Live m (refs p) p × Absent p shares × AllLive m refs shares

end_share-IsOwned :
    (m : Pools) (refs : ℕ → ℕ) (p : ℕ)
    → IsOwned m refs
    → Live m (refs p) p
    → IsOwned (end_share p m) refs
unfolding end_share sbuf_free pooled count_in
end_share-IsOwned m refs p own live q = elim (Bool-cases (p == q)) [
  | inl e ↦
      let same : p ≡ q = ground arith in
      subst (λ x. Owned (end_share p m) (refs x) x) same (ground (arith, live))
  | inr e ↦ ground (arith, own q)
]

end_share-Live : (m : Pools) (p q r : ℕ) → p ≢ q → Live m r q → Live (end_share p m) r q
unfolding end_share sbuf_free pooled count_in
end_share-Live m p q r apart live = ground (arith, live)

end_share-AllLive :
    (m : Pools) (refs : ℕ → ℕ) (p : ℕ) (shares : List (Option ℕ))
    → Absent p shares
    → AllLive m refs shares
    → AllLive (end_share p m) refs shares
unfolding Absent AllLive
end_share-AllLive m refs p [] absent live = tt
end_share-AllLive m refs p (none ∷ shares) absent live =
    end_share-AllLive m refs p shares absent live
end_share-AllLive m refs p (some q ∷ shares) absent live = (
  end_share-Live m p q (refs q) absent.0 live.0,
  live.1,
  end_share-AllLive m refs p shares absent.1 live.2,
)

-- Whether a buffer is among some shared ones
unfoldable pub is_in : ℕ → List (Option ℕ) → Bool
is_in q [] = false
is_in q (none ∷ shares) = is_in q shares
is_in q (some p ∷ shares) = p == q || is_in q shares

-- The buffer is not shared any more, and stands in the pool of its size, once, if no queue uses it.
abbrev pub Ended : (ℕ → ℕ) → Pools → Pools → ℕ → Type 0
Ended refs m m' q =
    (m'.bufs q ≡ record (m.bufs q) { shared = false })
    × (count_in q m'.large_pool
        ≡ (if refs q == 0 && (m.bufs q).bufsize == large_buffer then 1 else 0))
    × (count_in q m'.small_pool
        ≡ (if refs q == 0 && (m.bufs q).bufsize == small_buffer then 1 else 0))

-- The buffer is as it was, and where it was.
abbrev pub Untouched : Pools → Pools → ℕ → Type 0
Untouched m m' q =
    (m'.bufs q ≡ m.bufs q)
    × (count_in q m'.large_pool ≡ count_in q m.large_pool)
    × (count_in q m'.small_pool ≡ count_in q m.small_pool)

end_share-Ended :
    (m : Pools) (refs : ℕ → ℕ) (p : ℕ) → Live m (refs p) p → Ended refs m (end_share p m) p
unfolding end_share sbuf_free pooled count_in
end_share-Ended m refs p live = (ground (arith, live), ground (arith, live), ground (arith, live))

end_share-Untouched : (m : Pools) (p q : ℕ) → p ≢ q → Untouched m (end_share p m) q
unfolding end_share sbuf_free count_in
end_share-Untouched m p q apart = (ground arith, ground arith, ground arith)

Absent-is_in : (p : ℕ) (shares : List (Option ℕ)) → Absent p shares → is_in p shares ≡ false
unfolding Absent is_in
Absent-is_in p [] absent = refl
Absent-is_in p (none ∷ shares) absent = Absent-is_in p shares absent
Absent-is_in p (some q ∷ shares) absent = ground (arith, absent, Absent-is_in p shares absent.1)

Ended-behind :
    (refs : ℕ → ℕ) (m m1 m2 : Pools) (q : ℕ)
    → Untouched m m1 q
    → Ended refs m1 m2 q
    → Ended refs m m2 q
Ended-behind refs m m1 m2 q before ended =
    subst
      (λ b.
        (m2.bufs q ≡ record b { shared = false })
        × (count_in q m2.large_pool ≡ (if refs q == 0 && b.bufsize == large_buffer then 1 else 0))
        × (count_in q m2.small_pool ≡ (if refs q == 0 && b.bufsize == small_buffer then 1 else 0)))
      before.0 ended

-- What becomes of each buffer
shares_lem :
    (shares : List (Option ℕ)) (m : Pools) (refs : ℕ → ℕ) (q : ℕ)
    → AllLive m refs shares
    → ((is_in q shares ≡ true) × Ended refs m (sbuf_end_share shares m) q)
      ⊎ ((is_in q shares ≡ false) × Untouched m (sbuf_end_share shares m) q)
unfolding sbuf_end_share AllLive is_in
shares_lem [] m refs q live = inr (refl, (refl, refl, refl))
shares_lem (none ∷ shares) m refs q live = shares_lem shares m refs q live
shares_lem (some p ∷ shares) m refs q live =
    let live' = end_share-AllLive m refs p shares live.1 live.2 in
    let m1 = end_share p m in
    let m2 = sbuf_end_share shares m1 in
    elim (Bool-cases (p == q)) [
      | inl e ↦
          let same : p ≡ q = (==_iff p q).0 e in
          let gone : is_in q shares ≡ false =
            subst (λ x. is_in x shares ≡ false) same (Absent-is_in p shares live.1) in
          let ended : Ended refs m m1 q =
            subst (λ x. Ended refs m m1 x) same (end_share-Ended m refs p live.0) in
          elim (shares_lem shares m1 refs q live') [
            | inl found ↦ absurd (ground (arith, gone, found.0))
            | inr (_, after) ↦
                inl (rw e refl, (after.0 ∙ ended.0, after.1 ∙ ended.1, after.2 ∙ ended.2))
          ]
      | inr e ↦
          let apart : p ≢ q = λ same. absurd (ground (arith, same, e)) in
          let before = end_share-Untouched m p q apart in
          elim (shares_lem shares m1 refs q live') [
            | inl (found, ended) ↦ inl (rw e found, Ended-behind refs m m1 m2 q before ended)
            | inr (out, after) ↦
                inr (rw e out, (after.0 ∙ before.0, after.1 ∙ before.1, after.2 ∙ before.2))
          ]
    ]

sbuf_end_share-IsOwned :
    (shares : List (Option ℕ)) (m : Pools) (refs : ℕ → ℕ)
    → IsOwned m refs
    → AllLive m refs shares
    → IsOwned (sbuf_end_share shares m) refs
unfolding sbuf_end_share AllLive
sbuf_end_share-IsOwned [] m refs own live = own
sbuf_end_share-IsOwned (none ∷ shares) m refs own live =
    sbuf_end_share-IsOwned shares m refs own live
sbuf_end_share-IsOwned (some p ∷ shares) m refs own live =
    sbuf_end_share-IsOwned shares (end_share p m) refs (end_share-IsOwned m refs p own live.0)
      (end_share-AllLive m refs p shares live.1 live.2)

-- sbuf_end_share on shared buffers that are in use, each once: none of them is shared any more, its
-- size, users and bytes are as they were, and it is in the pool of its size, once, if no queue uses
-- it, and in none if one does; every other buffer is as it was, and where it was; and every buffer
-- is still owned, by a pool or by its users.
pub sbuf_end_share_lem :
    (shares : List (Option ℕ)) (m : Pools) (refs : ℕ → ℕ)
    → IsOwned m refs
    → AllLive m refs shares
    → IsOwned (sbuf_end_share shares m) refs
      × ((q : ℕ)
          → ((is_in q shares ≡ true) × Ended refs m (sbuf_end_share shares m) q)
            ⊎ ((is_in q shares ≡ false) × Untouched m (sbuf_end_share shares m) q))
sbuf_end_share_lem shares m refs own live =
    (sbuf_end_share-IsOwned shares m refs own live, λ q. shares_lem shares m refs q live)
