-- ===== src/Rpc/Server/Versions.antt =====
-- The range of versions that a PROG_MISMATCH reply reports.
use goxdr.Prelude.{ℕ, ◌^◌, ◌-◌, ◌≤◌, ◌<◌, [], ◌∷◌, All, All-both, ◌≡◌, refl, arith, ◌⊎◌, inl, inr}
use goxdr.Prelude.Assoc.{Assoc}
use goxdr.Rpc.Header.{MismatchInfo}
use goxdr.Rpc.Server.{XdrSrv, widen, range_versions}

-- `v` is a registered version.
abbrev pub Registered : ℕ → Assoc XdrSrv → Type 0
Registered v [] = ⊥
Registered v ((i, srv) ∷ prog) = (i ≡ v) ⊎ Registered v prog

range_low :
    (prog : Assoc XdrSrv) (m : MismatchInfo)
    → ((range_versions prog m).low ≤ m.low)
      × (All (λ e. (range_versions prog m).low ≤ e.0) prog)
      × (((range_versions prog m).low ≡ m.low) ⊎ Registered (range_versions prog m).low prog)
unfolding range_versions
range_low [] m = (omega arith, tt, inl refl)
range_low ((i, srv) ∷ prog) m =
    let (below, all, found) = range_low prog (widen i m) in
    (ground arith, (ground arith, all), ground arith)

range_high :
    (prog : Assoc XdrSrv) (m : MismatchInfo)
    → (m.high ≤ (range_versions prog m).high)
      × (All (λ e. e.0 ≤ (range_versions prog m).high) prog)
      × (((range_versions prog m).high ≡ m.high) ⊎ Registered (range_versions prog m).high prog)
unfolding range_versions
range_high [] m = (omega arith, tt, inl refl)
range_high ((i, srv) ∷ prog) m =
    let (above, all, found) = range_high prog (widen i m) in
    (ground arith, (ground arith, all), ground arith)

-- Whatever order the map is walked in, the loop of `GetProc` ends with the lowest and the highest
-- registered version: both are registered, and every registered one lies between them.
range_versions_lem :
    (i : ℕ) (srv : XdrSrv) (rest : Assoc XdrSrv)
    → All (λ e. e.0 < 2 ^ 32) ((i, srv) ∷ rest)
    → let prog = (i, srv) ∷ rest in
      let r = range_versions prog (record { low = 2 ^ 32 - 1; high = 0 }) in
      Registered r.low prog
      × Registered r.high prog
      × All (λ e. (r.low ≤ e.0) × (e.0 ≤ r.high)) prog
range_versions_lem i srv rest small =
    let prog : Assoc XdrSrv = (i, srv) ∷ rest in
    let m : MismatchInfo = record { low = 2 ^ 32 - 1; high = 0 } in
    let (below, lows, low_at) = range_low prog m in
    let (above, highs, high_at) = range_high prog m in
    (
      elim low_at [ inl e ↦ inl (omega (arith, e, lows.0, small.0)) | inr r ↦ r ],
      elim high_at [ inl e ↦ inl (omega (arith, e, highs.0)) | inr r ↦ r ],
      All-both (λ e. (range_versions prog m).low ≤ e.0) (λ e. e.0 ≤ (range_versions prog m).high)
          prog lows highs,
    )
