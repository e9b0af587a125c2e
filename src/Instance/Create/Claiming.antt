-- ===== src/Instance/Create/Claiming.antt =====
-- Which host `Create` claims: the first one that it wins, over the instance types in order and the
-- available hosts of each in order.
use karpenter_provider_ssh.Common.{
  ◌≡◌, refl, sym, subst, Bool, true, false, Option, none, some, List, [], ◌∷◌, arith,
}
use karpenter_provider_ssh.Exec.{Result, ok, err}
use karpenter_provider_ssh.Api.Errors.{Error}
use karpenter_provider_ssh.Api.Host.{Host}
use karpenter_provider_ssh.Api.NodeClass.{NodeClass}
use karpenter_provider_ssh.Api.NodeClaim.{NodeClaim}
use karpenter_provider_ssh.Instance.{Deps, InstanceType}
use karpenter_provider_ssh.Instance.Create.{claim_candidate, claim_first, claim_cheapest}

module _ {W : Type 0} (deps : Deps W) (class : NodeClass) (nc : NodeClaim) where
  -- Every host of a list was tried in order, and lost.
  pub data AllLost : List Host → W → W → Type 0 where
    tried_none : {w : W} → AllLost [] w w
    lost :
        {h h' : Host} {hs : List Host} {w w1 w2 : W}
        → claim_candidate deps nc h w ≡ (ok (false, h'), w1)
        → AllLost hs w1 w2
        → AllLost (h ∷ hs) w w2

  -- A host of a list was won, after those before it were lost.
  pub data WonFirst : List Host → Host → W → W → Type 0 where
    won_here :
        {h claimed : Host} {hs : List Host} {w w1 : W}
        → claim_candidate deps nc h w ≡ (ok (true, claimed), w1)
        → WonFirst (h ∷ hs) claimed w w1
    won_later :
        {h h' claimed : Host} {hs : List Host} {w w1 w2 : W}
        → claim_candidate deps nc h w ≡ (ok (false, h'), w1)
        → WonFirst hs claimed w1 w2
        → WonFirst (h ∷ hs) claimed w w2

  -- Every available host of every type of a list was tried in order, and lost.
  pub data NoneLeft : List InstanceType → W → W → Type 0 where
    no_types : {w : W} → NoneLeft [] w w
    next_type :
        {it : InstanceType} {its : List InstanceType} {hosts : List Host} {w w1 w2 w3 : W}
        → deps.pool.available class.spec.host_selector it.name w ≡ (ok hosts, w1)
        → AllLost hosts w1 w2
        → NoneLeft its w2 w3
        → NoneLeft (it ∷ its) w w3

  -- A host of one type was won, after all hosts of the types before it were lost.
  pub data WonCheapest : List InstanceType → Host → W → W → Type 0 where
    won_type :
        {it : InstanceType} {its : List InstanceType} {hosts : List Host} {claimed : Host}
        {w w1 w2 : W}
        → deps.pool.available class.spec.host_selector it.name w ≡ (ok hosts, w1)
        → WonFirst hosts claimed w1 w2
        → WonCheapest (it ∷ its) claimed w w2
    won_later_type :
        {it : InstanceType} {its : List InstanceType} {hosts : List Host} {claimed : Host}
        {w w1 w2 w3 : W}
        → deps.pool.available class.spec.host_selector it.name w ≡ (ok hosts, w1)
        → AllLost hosts w1 w2
        → WonCheapest its claimed w2 w3
        → WonCheapest (it ∷ its) claimed w w3

  abbrev pub FirstOutcome : List Host → W → Result Error (Option Host) × W → Type 0
  FirstOutcome hs w (ok none, w') = AllLost hs w w'
  FirstOutcome hs w (ok (some h), w') = WonFirst hs h w w'
  FirstOutcome hs w (err e, w') = Unit

  abbrev pub CheapestOutcome : List InstanceType → W → Result Error (Option Host) × W → Type 0
  CheapestOutcome its w (ok none, w') = NoneLeft its w w'
  CheapestOutcome its w (ok (some h), w') = WonCheapest its h w w'
  CheapestOutcome its w (err e, w') = Unit

  later_host :
      (h h' : Host) (hs : List Host) (w w1 : W) (r : Result Error (Option Host) × W)
      → claim_candidate deps nc h w ≡ (ok (false, h'), w1)
      → FirstOutcome hs w1 r
      → FirstOutcome (h ∷ hs) w r
  later_host h h' hs w w1 (ok none, w') q o = lost q o
  later_host h h' hs w w1 (ok (some g), w') q o = won_later q o
  later_host h h' hs w w1 (err e, w') q o = tt

  abbrev claim_step :
      Host → List Host → Result Error (Bool × Host) × W → Result Error (Option Host) × W
  claim_step h hs (ok (true, c), w1) = (ok (some c), w1)
  claim_step h hs (ok (false, c), w1) = claim_first deps nc hs w1
  claim_step h hs (err e, w1) = (err e, w1)

  claim_first-cons :
      (h : Host) (hs : List Host) (w : W)
      → claim_first deps nc (h ∷ hs) w ≡ claim_step h hs (claim_candidate deps nc h w)
  unfolding claim_first
  claim_first-cons h hs w = ground arith

  claim_first_lem : (hs : List Host) (w : W) → FirstOutcome hs w (claim_first deps nc hs w)
  unfolding claim_first
  claim_first_lem [] w = tried_none
  claim_first_lem (h ∷ hs) w =
      subst (FirstOutcome (h ∷ hs) w) (sym (claim_first-cons h hs w))
        (tried (claim_candidate deps nc h w) refl (claim_first_lem hs))
    where
      tried :
          (r : Result Error (Bool × Host) × W)
          → claim_candidate deps nc h w ≡ r
          → ((v : W) → FirstOutcome hs v (claim_first deps nc hs v))
          → FirstOutcome (h ∷ hs) w (claim_step h hs r)
      tried (ok (true, c), w1) q rec = won_here q
      tried (ok (false, c), w1) q rec = later_host h c hs w w1 _ q (rec w1)
      tried (err e, w1) q rec = tt

  later_type :
      (it : InstanceType) (its : List InstanceType) (hosts : List Host) (w w1 w2 : W)
      (r : Result Error (Option Host) × W)
      → deps.pool.available class.spec.host_selector it.name w ≡ (ok hosts, w1)
      → AllLost hosts w1 w2
      → CheapestOutcome its w2 r
      → CheapestOutcome (it ∷ its) w r
  later_type it its hosts w w1 w2 (ok none, w') q l o = next_type q l o
  later_type it its hosts w w1 w2 (ok (some g), w') q l o = won_later_type q l o
  later_type it its hosts w w1 w2 (err e, w') q l o = tt

  -- The two loops of `Create`: a host that they return was won with a claim, after the claim of every
  -- available host before it, type by type in the order given, was lost; and if they return none,
  -- every available host of every type was tried and lost.
  pub claim_cheapest_lem :
      (its : List InstanceType) (w : W) → CheapestOutcome its w (claim_cheapest deps class nc its w)
  unfolding claim_cheapest
  claim_cheapest_lem [] w = no_types
  claim_cheapest_lem (it ∷ its) w =
      listed (deps.pool.available class.spec.host_selector it.name w) refl (claim_cheapest_lem its)
    where
      listed :
          (r : Result Error (List Host) × W)
          → deps.pool.available class.spec.host_selector it.name w ≡ r
          → ((v : W) → CheapestOutcome its v (claim_cheapest deps class nc its v))
          → CheapestOutcome (it ∷ its) w (claim_cheapest deps class nc (it ∷ its) w)
      listed (err e, w1) q rec = rw q tt
      listed (ok hosts, w1) q rec =
          tried (claim_first deps nc hosts w1) refl (claim_first_lem hosts w1)
        where
          tried :
              (r : Result Error (Option Host) × W)
              → claim_first deps nc hosts w1 ≡ r
              → FirstOutcome hosts w1 (claim_first deps nc hosts w1)
              → CheapestOutcome (it ∷ its) w (claim_cheapest deps class nc (it ∷ its) w)
          tried (ok none, w2) p o = rw q (
              rw p
                (later_type it its hosts w w1 w2 _ q (subst (FirstOutcome hosts w1) p o) (rec w2)))
          tried (ok (some h), w2) p o = rw q (rw p (won_type q (subst (FirstOutcome hosts w1) p o)))
          tried (err e, w2) p o = rw q (rw p tt)
