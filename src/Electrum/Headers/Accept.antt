-- ===== src/Electrum/Headers/Accept.antt =====
-- When electrum/src/header_validator.rs accepts a header.
use bwk.Common.{
  ℕ, true, false, none, some, List, [], ◌≡◌, ◌≢◌, ◌↔◌, ◌⊎◌, inl, inr, refl, arith, ◌-◌, ◌/◌, ◌%◌,
  ◌≤◌, min, ltb, ◌==◌, length, get_elem?, ok, err, if◌then◌else◌, Bool-cases, u64_mod, ◌+◌,
}
use bwk.Common.Text.{text_ord}
use bwk.Electrum.Headers.{
  Network, Header, Params, Consensus, HeaderError, check_mtp, check_retarget, check_boundary,
  check_linkage, check_pow, check_future_cap, validate_append, retarget_interval, relaxed, last,
  require, and_check,
}
use bwk.Electrum.Headers.Rules.{IsTestnet, relaxed-IsTestnet}
use bwk.Electrum.Headers.Median.{get_elem?-some}
use bwk.Electrum.Headers.Checks.{
  Decided, and_check-Decided, require-ok, PastMedian, check_mtp-Decided, check_future_cap-ok,
}

-- How many headers share one target.
abbrev pub interval : Params → ℕ
interval params = params.pow_target_timespan / params.pow_target_spacing

module _ (consensus : Consensus) where
  -- The bits follow from the period that ends before the boundary.
  abbrev pub NextWork : Params → List Header → Header → Header → Type 0
  NextWork params ancestors prev incoming =
      (interval params ≤ length ancestors)
      × (start : Header) × (get_elem? ancestors (length ancestors - interval params) ≡ some start)
      × (incoming.bits
          ≡ consensus.from_next_work_required prev.bits (prev.time - start.time) params)

  -- The bits of the previous header, or at a boundary the next work.
  abbrev pub Retargeted : Params → List Header → ℕ → Header → Header → Type 0
  Retargeted params ancestors height prev incoming =
      (params.no_pow_retargeting ≡ true)
      ⊎ (((height % interval params ≢ 0) × (incoming.bits ≡ prev.bits))
          ⊎ ((height % interval params ≡ 0) × NextWork params ancestors prev incoming))

  check_boundary-Decided :
      (params : Params) (ancestors : List Header) (prev incoming : Header)
      → retarget_interval params ≢ 0
      → Decided
          (check_boundary consensus params ancestors prev incoming)
          (NextWork params ancestors prev incoming)
  unfolding check_boundary
  check_boundary-Decided params ancestors prev incoming positive =
      elim (Bool-cases (ltb (length ancestors) (retarget_interval params))) [
        | inl short ↦
            rw (short, check_boundary)
              (
                err HeaderError.missing_ancestor,
                refl,
                (λ e. absurd (ground arith), λ p. absurd (ground arith)),
              )
        | inr long ↦
            let (start, found) =
              get_elem?-some ancestors (length ancestors - retarget_interval params)
                (ground arith) in
            rw (long, found, check_boundary)
              (
                require
                    (incoming.bits
                      == consensus.from_next_work_required prev.bits (prev.time - start.time)
                          params)
                    HeaderError.bad_retarget,
                refl,
                (λ e. (ground arith, start, refl, ground arith), λ p. ground arith),
              )
      ]

  check_retarget-Decided :
      (params : Params) (ancestors : List Header) (height : ℕ) (prev incoming : Header)
      → retarget_interval params ≢ 0
      → Decided
          (check_retarget consensus params ancestors height prev incoming)
          (Retargeted params ancestors height prev incoming)
  unfolding check_retarget
  check_retarget-Decided params ancestors height prev incoming positive =
      let checked : (retarget_interval params == 0) ≡ false = ground arith in
      let (r, same, decided) = check_boundary-Decided params ancestors prev incoming positive in
      elim (Bool-cases params.no_pow_retargeting) [
        | inl fixed ↦ (ok tt, ground arith, (λ e. inl fixed, λ p. refl))
        | inr adjusted ↦ elim (Bool-cases (height % retarget_interval params == 0)) [
          | inr inside ↦ (
            require (incoming.bits == prev.bits) HeaderError.bits_mismatch,
            ground arith,
            ground arith,
          )
          | inl boundary ↦ (r, ground arith, ground arith)
        ]
      ]

  check_pow-ok :
      (params : Params) (incoming : Header)
      → (check_pow consensus params incoming ≡ ok tt) ↔ (
          consensus.validate_pow incoming
            (min (consensus.target incoming) params.max_attainable_target)
          ≡ true)
  unfolding check_pow
  check_pow-ok params incoming =
      require-ok
        (consensus.validate_pow incoming
          (min (consensus.target incoming) params.max_attainable_target))
        HeaderError.pow

  check_linkage-ok :
      (prev incoming : Header)
      → (check_linkage consensus prev incoming ≡ ok tt)
        ↔ (incoming.prev_blockhash ≡ consensus.block_hash prev)
  unfolding check_linkage
  check_linkage-ok prev incoming = ground (
    arith,
    text_ord.cmp-eq incoming.prev_blockhash (consensus.block_hash prev),
    text_ord.cmp-refl (consensus.block_hash prev),
  )

  -- The bits, where the network asks for them, and the time.
  check_rest-Decided :
      (network : Network) (ancestors : List Header) (height : ℕ) (prev incoming : Header)
      → retarget_interval (consensus.params network) ≢ 0
      → ancestors ≢ []
      → Decided
          (if relaxed network
            then check_mtp network ancestors incoming
            else elim (check_retarget consensus
                (consensus.params network)
                ancestors
                height
                prev
                incoming) [
                  | none ↦ none
                  | some checked ↦ and_check checked (check_mtp network ancestors incoming)
                ])
          ((IsTestnet network
              ⊎ Retargeted (consensus.params network) ancestors height prev incoming)
            × PastMedian network ancestors incoming)
  check_rest-Decided network ancestors height prev incoming positive filled =
      let (r, same, decided) = check_mtp-Decided network ancestors incoming filled in
      let (bits, bits_same, bits_decided) =
        check_retarget-Decided (consensus.params network) ancestors height prev incoming positive in
      elim (Bool-cases (relaxed network)) [
        | inl skipped ↦ (
          r,
          ground arith,
          (λ e. (inl ((relaxed-IsTestnet network).0 skipped), decided.0 e), λ p. decided.1 p.1),
        )
        | inr strict ↦
            let (both, both_same, both_decided) =
              and_check-Decided bits (check_mtp network ancestors incoming) bits_decided
                (r, same, decided) in
            (
              both,
              rw (strict, bits_same) both_same,
              (
                λ e. (inr (both_decided.0 e).0, (both_decided.0 e).1),
                λ p. both_decided.1 (ground (arith, relaxed-IsTestnet network), p.1),
              ),
            )
      ]

  -- All the rules for a header above the genesis block.
  abbrev pub Accepted : Network → List Header → ℕ → Header → Header → ℕ → Type 0
  Accepted network ancestors height prev incoming now_secs =
      let params = consensus.params network in
      (incoming.time ≤ min (now_secs + 7200) (u64_mod - 1))
      × ((consensus.validate_pow incoming
              (min (consensus.target incoming) params.max_attainable_target)
            ≡ true)
          × ((incoming.prev_blockhash ≡ consensus.block_hash prev)
              × ((IsTestnet network ⊎ Retargeted params ancestors height prev incoming)
                  × PastMedian network ancestors incoming)))

  -- Above the genesis block and after at least one ancestor, where the retarget interval of the
  -- network is not zero, `validate_append` always returns, and it accepts the header exactly when
  -- it is no more than 7200 seconds ahead of the clock (or of the largest `u64`), its work meets
  -- its target and the limit of the network, it names the last ancestor, its bits are those of the
  -- last ancestor or, at a retarget boundary, the next work (not asked on testnet and testnet4, nor
  -- where the network does not retarget), and its time is past those of more than half of the last
  -- 11 ancestors, or of all where there are fewer (not asked on regtest).
  pub validate_append-Accepted :
      (network : Network) (ancestors : List Header) (height : ℕ) (prev incoming : Header)
      (now_secs : ℕ)
      → retarget_interval (consensus.params network) ≢ 0
      → height ≢ 0
      → last ancestors ≡ some prev
      → Decided
          (validate_append consensus network ancestors height incoming now_secs)
          (Accepted network ancestors height prev incoming now_secs)
  unfolding validate_append
  validate_append-Accepted network ancestors height prev incoming now_secs positive above final =
      let params = consensus.params network in
      let filled : ancestors ≢ [] = ground arith in
      let genesis : (height == 0) ≡ false = ground arith in
      let rest = check_rest-Decided network ancestors height prev incoming positive filled in
      let linked =
        and_check-Decided (check_linkage consensus prev incoming) _ (check_linkage-ok prev incoming)
          rest in
      let worked =
        and_check-Decided (check_pow consensus params incoming) _ (check_pow-ok params incoming)
          linked in
      rw (genesis, final, validate_append)
        (and_check-Decided (check_future_cap incoming now_secs) _
          (check_future_cap-ok incoming now_secs) worked)
