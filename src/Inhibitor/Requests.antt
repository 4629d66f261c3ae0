-- ===== src/Inhibitor/Requests.antt =====
-- The power requests that Windows holds for the process, against the one that the inhibitor owns.
use chiu.Common.{
  ℕ, ◌≡◌, refl, Bool, true, false, if◌then◌else◌, ◌==◌, arith, List, [], ◌∷◌, String, inl, inr,
}
use chiu.Common.Result.{ok, err, is_ok, Result-cases}
use chiu.Inhibitor.{InhibitorState, facade_acquire, facade_release}
use chiu.Inhibitor.Windows.{
  PowerApi, WindowsInhibitor, WindowsOwnership, inactive, active, cleanup_debt, windows, win_state,
  win_acquire, win_release, system_required, abandon, request, close_cleared, request_reason,
}

-- The open handles, each with whether the system is required for it.
abbrev pub Requests : Type 0
Requests = List (ℕ × Bool)

abbrev pub assign : ℕ → Bool → Requests → Requests
assign h b [] = []
assign h b ((j, c) ∷ rs) = (j, if j == h then b else c) ∷ assign h b rs

abbrev pub close : ℕ → Requests → Requests
close h [] = []
close h ((j, c) ∷ rs) = let rest = close h rs in if j == h then rest else (j, c) ∷ rest

-- Whether some open request requires the system.
abbrev pub required : Requests → Bool
required [] = false
required ((_, true) ∷ rs) = true
required ((_, false) ∷ rs) = required rs

abbrev pub is_active : InhibitorState → Bool
is_active InhibitorState.active = true
is_active InhibitorState.inactive = false

-- What Win32 documents of its calls, with `requests` the open requests of the process: a call that
-- fails changes none of them, and a failed close gives the same handle back.
pub record IsTracking {A : Type 0} (p : PowerApi A) (requests : A → Requests) : Type 0 where
  pub created :
      (a : A) (s : String) (h : ℕ)
      → (p.create_request a s).1 ≡ ok h
      → requests (p.create_request a s).0 ≡ (h, false) ∷ requests a
  pub not_created :
      (a : A) (s : String)
      → is_ok (p.create_request a s).1 ≡ false
      → requests (p.create_request a s).0 ≡ requests a
  pub was_set :
      (a : A) (h : ℕ)
      → is_ok (p.set_request a h system_required).1 ≡ true
      → requests (p.set_request a h system_required).0 ≡ assign h true (requests a)
  pub not_set :
      (a : A) (h : ℕ)
      → is_ok (p.set_request a h system_required).1 ≡ false
      → requests (p.set_request a h system_required).0 ≡ requests a
  pub cleared :
      (a : A) (h : ℕ)
      → is_ok (p.clear_request a h system_required).1 ≡ true
      → requests (p.clear_request a h system_required).0 ≡ assign h false (requests a)
  pub not_cleared :
      (a : A) (h : ℕ)
      → is_ok (p.clear_request a h system_required).1 ≡ false
      → requests (p.clear_request a h system_required).0 ≡ requests a
  pub closed :
      (a : A) (h : ℕ)
      → is_ok (p.close_request a h).1 ≡ true
      → requests (p.close_request a h).0 ≡ close h (requests a)
  pub not_closed :
      (a : A) (h code j : ℕ)
      → (p.close_request a h).1 ≡ err (code, j)
      → (j ≡ h) × (requests (p.close_request a h).0 ≡ requests a)

abbrev pub owned : WindowsOwnership → Requests
owned inactive = []
owned (active h) = (h, true) ∷ []
owned (cleanup_debt h) = (h, false) ∷ []

module _ {A : Type 0} (p : PowerApi A) {requests : A → Requests} (t : IsTracking p requests) where
  -- The process holds the request that the inhibitor owns, and no other.
  abbrev pub Tracked : WindowsInhibitor A → Type 0
  Tracked d = requests d.api ≡ owned d.ownership

  abandon-Tracked :
      (a : A) (h code : ℕ) → requests a ≡ (h, false) ∷ [] → Tracked (abandon p a h code).0
  unfolding abandon
  abandon-Tracked a h code e = elim (Result-cases (p.close_request a h).1) [
    | inl (_, good) ↦ rw (good, abandon) (ground (arith, t.closed a h))
    | inr ((c, j), bad) ↦ rw (bad, abandon) (ground (arith, t.not_closed a h c j))
  ]

  request-Tracked : (a : A) → requests a ≡ [] → Tracked (request p a).0
  unfolding request
  request-Tracked a e = elim (Result-cases (p.create_request a request_reason).1) [
    | inr (c, bad) ↦ rw (bad, request) (ground (arith, t.not_created a request_reason))
    | inl (h, good) ↦
        let a' = (p.create_request a request_reason).0 in
        let fresh = t.created a request_reason h good in
        elim (Result-cases (p.set_request a' h system_required).1) [
          | inl (_, done) ↦ rw (good, done, request) (ground (arith, t.was_set a' h))
          | inr (c, bad) ↦
              rw (good, bad, request)
                (abandon-Tracked (p.set_request a' h system_required).0 h c
                  (ground (arith, t.not_set a' h)))
        ]
  ]

  win_acquire-Tracked : (d : WindowsInhibitor A) → Tracked d → Tracked (win_acquire p d).0
  unfolding win_acquire request
  win_acquire-Tracked d e = go d.ownership refl
    where
      go : (o : WindowsOwnership) → d.ownership ≡ o → Tracked (win_acquire p d).0
      go inactive q = rw (q, win_acquire) (request-Tracked d.api (ground arith))
      go (active h) q = rw (q, win_acquire) e
      go (cleanup_debt h) q = elim (Result-cases (p.close_request d.api h).1) [
        | inl (_, good) ↦
            rw (q, good, win_acquire)
              (request-Tracked (p.close_request d.api h).0 (ground (arith, t.closed d.api h)))
        | inr ((c, j), bad) ↦ rw (q, bad, win_acquire) (ground (arith, t.not_closed d.api h c j))
      ]

  close_cleared-Tracked :
      (a : A) (h : ℕ) → requests a ≡ (h, false) ∷ [] → Tracked (close_cleared p a h).0
  unfolding close_cleared
  close_cleared-Tracked a h e = elim (Result-cases (p.close_request a h).1) [
    | inl (_, good) ↦ rw (good, close_cleared) (ground (arith, t.closed a h))
    | inr ((c, j), bad) ↦ rw (bad, close_cleared) (ground (arith, t.not_closed a h c j))
  ]

  win_release-Tracked :
      (d : WindowsInhibitor A)
      → win_state p d ≡ InhibitorState.active
      → Tracked d
      → Tracked (win_release p d).0
  unfolding win_state win_release
  win_release-Tracked d s e = go d.ownership refl
    where
      go : (o : WindowsOwnership) → d.ownership ≡ o → Tracked (win_release p d).0
      go inactive q = ground arith
      go (cleanup_debt h) q = ground arith
      go (active h) q = elim (Result-cases (p.clear_request d.api h system_required).1) [
        | inl (_, good) ↦
            rw (q, good, win_release)
              (close_cleared-Tracked (p.clear_request d.api h system_required).0 h
                (ground (arith, t.cleared d.api h)))
        | inr (c, bad) ↦ rw (q, bad, win_release) (ground (arith, t.not_cleared d.api h))
      ]

  -- Each call of the facade, whether it succeeds or fails at any point, keeps the process's
  -- requests equal to the one that the inhibitor owns.
  pub facade-Tracked :
      (d : WindowsInhibitor A)
      → Tracked d
      → Tracked (facade_acquire (windows p) d).0 × Tracked (facade_release (windows p) d).0
  unfolding facade_acquire facade_release
  facade-Tracked d e =
      (ground (arith, win_acquire-Tracked d), ground (arith, win_release-Tracked d))

  -- What the facade reports is what Windows does.
  pub Tracked-required :
      (d : WindowsInhibitor A) → Tracked d → required (requests d.api) ≡ is_active (win_state p d)
  unfolding win_state
  Tracked-required d e = ground arith
