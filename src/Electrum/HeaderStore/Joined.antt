-- ===== src/Electrum/HeaderStore/Joined.antt =====
-- A candidate branch that validates is linked to the active chain below its fork.
use bwk.Common.{
  ℕ, zero, suc, none, some, [], ◌∷◌, ◌≡◌, ◌+◌, ◌-◌, ◌<◌, ◌≤◌, arith, subst, Option-cases,
  Result-cases, inl, inr, leb, All, if◌then◌else◌, ok, saturating_add32, u32_mod,
}
use bwk.Common.OrdMap.{nat_ord, lookup, insert, lookup-insert}
use bwk.Persist.Backend.{Bytes}
use bwk.Electrum.Headers.{Header, validate_append}
use bwk.Electrum.HeaderStore.{Chain, collect_ancestors, interval_of}
use bwk.Electrum.HeaderStore.Branch.{
  Headers, HeaderBranch, Candidate, retain_below, validate_each, validate_branch,
}
use bwk.Electrum.HeaderStore.Linked.{Linked, Linked-part, insert-Linked}

-- Every header of the one map is in the other.
abbrev pub Within : Headers → Headers → Type 0
Within m t = (j : ℕ) (raw : Bytes) → lookup j m ≡ some raw → lookup j t ≡ some raw

abbrev pub Listed : Headers → Headers → Type 0
Listed headers t = All (λ (e : ℕ × Bytes). lookup e.0 t ≡ some e.1) headers

pub lookup-retain_below :
    (fork_h j : ℕ) (m : Headers)
    → lookup j (retain_below fork_h m) ≡ (if leb j fork_h then lookup j m else none)
unfolding lookup
lookup-retain_below fork_h j [] = ground arith
lookup-retain_below fork_h j ((h, raw) ∷ m) =
    ground (arith, lookup-retain_below fork_h j m, nat_ord.cmp-eq j h, nat_ord.cmp-refl j)

insert-Listed :
    (h : ℕ) (raw : Bytes) (headers t : Headers)
    → lookup h t ≡ some raw
    → Listed headers t
    → Listed (insert h raw headers) t
unfolding insert
insert-Listed h raw [] t here l = (here, tt)
insert-Listed h raw ((k, r) ∷ headers) t here l =
    ground (arith, insert-Listed h raw headers t here l.1, here, l.0, l.1)

Listed-Within : (headers t u : Headers) → Listed headers t → Within t u → Listed headers u
Listed-Within [] t u l w = tt
Listed-Within ((k, r) ∷ headers) t u l w = (w k r l.0, Listed-Within headers t u l.1 w)

module _ {B : Type 0} (c : Chain B) where
  -- What a candidate has passed.
  abbrev Passed : Headers → ℕ → Candidate c → Type 0
  Passed base h x =
      Linked c x.combined
      × ((j : ℕ) → h ≤ j → lookup j x.combined ≡ none)
      × Within base x.combined
      × Listed x.headers x.combined

  -- A linked chain that has the base and the headers.
  abbrev pub Joined : Headers → Headers → Type 0
  Joined base headers = (t : Headers) × Linked c t × Within base t × Listed headers t

  insert-Passed :
      (base : Headers) (h now_secs : ℕ) (raw : Bytes) (header : Header) (x : Candidate c)
      → c.deserialize raw ≡ some header
      → validate_append c.consensus c.network
          (collect_ancestors c.deserialize h (interval_of c) x.combined)
          h
          header
          now_secs
        ≡ some (ok tt)
      → Passed base h x
      → Passed base (h + 1) (record {
        combined = insert h raw x.combined;
        headers = insert h raw x.headers;
        chainwork = x.chainwork + c.work header;
      })
  insert-Passed base h now_secs raw header x decodes valid (linked, free, within, listed) =
      let grows : Within x.combined (insert h raw x.combined) =
        λ j r e. ground (arith, lookup-insert h j raw x.combined, nat_ord.cmp-eq j h, e, free h) in
      (
        insert-Linked c x.combined h (interval_of c) now_secs raw header linked
            (free (suc h) (omega arith)) decodes valid,
        λ j over. ground (arith, lookup-insert h j raw x.combined, nat_ord.cmp-eq j h, free j),
        λ j r e. grows j r (within j r e),
        insert-Listed h raw x.headers (insert h raw x.combined)
            (ground (arith, lookup-insert h h raw x.combined, nat_ord.cmp-refl h))
            (Listed-Within x.headers x.combined (insert h raw x.combined) listed grows),
      )

  validate_each-Joined :
      (count h now_secs : ℕ) (buffer base : Headers) (x : Candidate c) (branch : HeaderBranch)
      → Passed base h x
      → validate_each c count h buffer now_secs x ≡ some (ok branch)
      → Joined base branch.headers
  unfolding validate_each
  validate_each-Joined zero h now_secs buffer base x branch (linked, free, within, listed) e =
      let same : x.headers ≡ branch.headers = ground (arith, e) in
      (x.combined, linked, within, subst (λ (m : Headers). Listed m x.combined) same listed)
  validate_each-Joined (suc count) h now_secs buffer base x branch passed e =
      elim (Option-cases (lookup h buffer)) [
        | inl gap ↦ absurd (ground (arith, e, gap))
        | inr (raw, there) ↦ elim (Option-cases (c.deserialize raw)) [
          | inl malformed ↦ absurd (ground (arith, e, there, malformed))
          | inr (header, decodes) ↦
              elim (Option-cases (
                validate_append c.consensus c.network
                  (collect_ancestors c.deserialize h (interval_of c) x.combined) h header
                  now_secs)) [
                    | inl panics ↦ absurd (ground (arith, e, there, decodes, panics))
                    | inr (check, checks) ↦ elim (Result-cases check) [
                      | inr (x', fails) ↦ absurd (ground (arith, e, there, decodes, checks, fails))
                      | inl (u, holds) ↦
                          validate_each-Joined count (h + 1) now_secs buffer base
                            (record {
                              combined = insert h raw x.combined;
                              headers = insert h raw x.headers;
                              chainwork = x.chainwork + c.work header;
                            })
                            branch
                            (insert-Passed base h now_secs raw header x decodes
                              (ground (arith, checks, holds)) passed)
                            (ground (arith, e, there, decodes, checks, holds))
                    ]
                  ]
        ]
      ]

  pub validate_branch-Joined :
      (active : Headers) (fork_h incoming_h now_secs : ℕ) (buffer : Headers) (branch : HeaderBranch)
      → fork_h + 1 < u32_mod
      → Linked c active
      → validate_branch c active fork_h incoming_h buffer now_secs ≡ some (ok branch)
      → Joined (retain_below fork_h active) branch.headers
  unfolding validate_branch
  validate_branch-Joined active fork_h incoming_h now_secs buffer branch fits linked e =
      let kept = retain_below fork_h active in
      let start = saturating_add32 fork_h 1 in
      validate_each-Joined (incoming_h + 1 - start) start now_secs buffer kept
        (record { combined = kept; headers = []; chainwork = 0 }) branch
        (
          Linked-part c active kept linked
              (λ j raw there. ground (arith, lookup-retain_below fork_h j active, there)),
          λ j over. ground (arith, lookup-retain_below fork_h j active),
          λ j raw there. there,
          tt,
        )
        e
