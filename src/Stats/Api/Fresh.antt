-- ===== src/Stats/Api/Fresh.antt =====
-- How old the snapshots are that internal/wait0/statapi/controller.go answers with, and to whom.
use mathlib.Core.Path.{subst}
use wait.Base.{
  ℕ, ◌≡◌, refl, sym, ◌∙◌, ◌⊎◌, true, Option, none, some, List, [], ◌∷◌, str, str_eq, slt, sub64,
  Bool-cases, inl, inr,
}
use wait.Cache.Disk.{Platform}
use wait.Auth.{Authenticator, Principal, authenticate_bearer, authorized_for_scope}
use wait.Proxy.{Service}
use wait.Stats.Collector.{Collector}
use wait.Stats.Api.{
  Response, Reply, answered, StatRequest, snapshot_ttl, is_endpoint_path, Controller,
  build_snapshot, get_snapshot, after_auth, handle,
}

answered-eq : (a b : Response) → answered a ≡ answered b → a ≡ b
answered-eq a b e = cc

module _ (p : Platform) where
  -- What the process was at a time: the collector and the caches.
  pub record Moment : Type 0 where
    pub at : ℕ
    pub stats : Option Collector
    pub service : Service p

  unfoldable pub built_at : Moment → Response
  built_at m = build_snapshot p m.stats m.at m.service

  -- A controller that answered requests at moments, the last one first.
  pub data Served (authn : Option Authenticator) : List Moment → Controller → Type 0 where
    begins : Served authn [] (record { authn = authn; kept = none })
    requested :
        (m : Moment) (r : StatRequest) (ms : List Moment) (c : Controller)
        → Served authn ms c
        → Served authn (m ∷ ms) (handle p m.stats m.at m.service r c).0

  -- The snapshot was built at one of the moments.
  pub data Among (at : ℕ) (snap : Response) : List Moment → Type 0 where
    here : (m : Moment) (ms : List Moment) → at ≡ m.at → snap ≡ built_at m → Among at snap (m ∷ ms)
    there : (m : Moment) (ms : List Moment) → Among at snap ms → Among at snap (m ∷ ms)

  abbrev IsKept : List Moment → Option (ℕ × Response) → Type 0
  IsKept ms none = Unit
  IsKept ms (some (at, snap)) = Among at snap ms

  IsKept-cons :
      (m : Moment) (ms : List Moment) (k : Option (ℕ × Response)) → IsKept ms k → IsKept (m ∷ ms) k
  IsKept-cons m ms none ok = tt
  IsKept-cons m ms (some (at, snap)) ok = there m ms ok

  -- The snapshot that a request gets is the one that is kept then, and is younger than the limit or
  -- was built for it.
  record IsAnswer (m : Moment) (ms : List Moment) (a : (ℕ × Response) × Response) : Type 0 where
    among : Among a.0.0 a.1 (m ∷ ms)
    same : a.0.1 ≡ a.1
    young : (slt (sub64 m.at a.0.0) snapshot_ttl ≡ true) ⊎ (a.0.0 ≡ m.at)

  get_snapshot-IsAnswer :
      (m : Moment) (ms : List Moment) (k : Option (ℕ × Response))
      → IsKept ms k
      → IsAnswer m ms (get_snapshot p m.stats m.at m.service k)
  unfolding get_snapshot built_at
  get_snapshot-IsAnswer m ms none ok = record {
    among = here m ms refl refl;
    same = refl;
    young = inr refl;
  }
  get_snapshot-IsAnswer m ms (some (at, snap)) ok =
      elim (Bool-cases (slt (sub64 m.at at) snapshot_ttl)) [
        | inl e ↦
            simp (e, get_snapshot) (record { among = there m ms ok; same = refl; young = inl e })
        | inr e ↦
            simp (e, get_snapshot)
              (record { among = here m ms refl refl; same = refl; young = inr refl })
      ]

  -- An answer is for an actor that may read, and was built at one of the moments: at this one, or
  -- less than `snapshot_ttl` before it.
  pub record IsFresh (m : Moment) (ms : List Moment) (o : Option Principal) (snap : Response)
      : Type 0 where
    pub actor : Principal
    pub known : o ≡ some actor
    pub allowed : authorized_for_scope actor (str "stats:read") ≡ true
    pub at : ℕ
    pub among : Among at snap (m ∷ ms)
    pub young : (slt (sub64 m.at at) snapshot_ttl ≡ true) ⊎ (at ≡ m.at)

  -- What a request leaves and is answered with.
  record Answers (m : Moment) (ms : List Moment) (c : Controller) (o : Option Principal)
      (a : Controller × Reply) : Type 0 where
    authn : a.0.authn ≡ c.authn
    kept : IsKept (m ∷ ms) a.0.kept
    answer : (snap : Response) → a.1 ≡ answered snap → IsFresh m ms o snap

  after_auth-Answers :
      (m : Moment) (ms : List Moment) (c : Controller) (o : Option Principal)
      → IsKept ms c.kept
      → Answers m ms c o (after_auth p m.stats m.at m.service c o)
  unfolding after_auth
  after_auth-Answers m ms c none ok = record {
    authn = refl;
    kept = IsKept-cons m ms c.kept ok;
    answer = λ snap e. absurd cc;
  }
  after_auth-Answers m ms c (some actor) ok =
      let a = get_snapshot p m.stats m.at m.service c.kept in
      let r = get_snapshot-IsAnswer m ms c.kept ok in
      elim (Bool-cases (authorized_for_scope actor (str "stats:read"))) [
        | inl e ↦
            simp (e, after_auth)
              (record {
                authn = refl;
                kept = subst (λ x. Among a.0.0 x (m ∷ ms)) (sym r.same) r.among;
                answer = λ snap is. record {
                  actor = actor;
                  known = refl;
                  allowed = e;
                  at = a.0.0;
                  among = subst (λ x. Among a.0.0 x (m ∷ ms)) (answered-eq a.1 snap is) r.among;
                  young = r.young;
                };
              })
        | inr e ↦
            simp (e, after_auth)
              (record {
                authn = refl;
                kept = IsKept-cons m ms c.kept ok;
                answer = λ snap is. absurd cc;
              })
      ]

  handle-Answers :
      (m : Moment) (ms : List Moment) (c : Controller) (r : StatRequest)
      → IsKept ms c.kept
      → Answers m ms c
          (authenticate_bearer c.authn r.authorization)
          (handle p m.stats m.at m.service r c)
  unfolding handle
  handle-Answers m ms c r ok = elim (Bool-cases (is_endpoint_path r.path)) [
    | inr e ↦
        simp (e, handle)
          (record {
            authn = refl;
            kept = IsKept-cons m ms c.kept ok;
            answer = λ snap is. absurd cc;
          })
    | inl e ↦ elim (Bool-cases (str_eq r.method (str "GET"))) [
      | inr f ↦
          simp (e, f, handle)
            (record {
              authn = refl;
              kept = IsKept-cons m ms c.kept ok;
              answer = λ snap is. absurd cc;
            })
      | inl f ↦
          simp (e, f, handle)
            (after_auth-Answers m ms c (authenticate_bearer c.authn r.authorization) ok)
    ]
  ]

  Served-IsKept :
      (authn : Option Authenticator) (ms : List Moment) (c : Controller)
      → Served authn ms c
      → (c.authn ≡ authn) × IsKept ms c.kept
  Served-IsKept authn _ _ begins = (refl, tt)
  Served-IsKept authn _ _ (requested m r ms c c_from) =
      let (same, ok) = Served-IsKept authn ms c c_from in
      let after = handle-Answers m ms c r ok in (after.authn ∙ same, after.kept)

  -- After any requests at any moments: a request that is answered with a snapshot has a token of a
  -- principal with the scope `stats:read`, and the snapshot tells the collector and the caches of
  -- that moment, or of an earlier request's moment less than five seconds before.
  pub handle-IsFresh :
      (authn : Option Authenticator) (ms : List Moment) (c : Controller) (m : Moment)
      (r : StatRequest) (snap : Response)
      → Served authn ms c
      → (handle p m.stats m.at m.service r c).1 ≡ answered snap
      → IsFresh m ms (authenticate_bearer authn r.authorization) snap
  handle-IsFresh authn ms c m r snap from_start e =
      let (same, ok) = Served-IsKept authn ms c from_start in
      subst (λ a. IsFresh m ms (authenticate_bearer a r.authorization) snap) same
        ((handle-Answers m ms c r ok).answer snap e)
