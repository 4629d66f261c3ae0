-- ===== src/Log/Shifting.antt =====
-- How the loop of a rotation moves the files on, by what each of them holds.
use chiu.Common.{
  ℕ, zero, suc, ◌<◌, ◌≡◌, ◌≢◌, refl, sym, ap, subst, ◌∙◌, Bool, true, false, Option, none, some,
  is_some, arith, ℕ_discrete,
}
use chiu.Common.Result.{ok, err}
use chiu.Log.Writer.{
  LogFile, current, archive, LoggingFailureStage, prune, rotating, LogFiles, Outcome, and_then,
  or_stage, source_of, move, shift, shift_all,
}

-- What the log relies on of the file system, by what each file holds.
pub record IsDirectory {F B C : Type 0} (fs : LogFiles F B) (content : F → LogFile → Option C)
    (empty : C) : Type 0 where
  pub exists : (n : LogFile) (f : F) → fs.exists n f ≡ is_some (content f n)
  pub flushed : (f : F) (m : LogFile) → content (fs.flush f).0 m ≡ content f m
  pub removed :
      (n : LogFile) (f : F)
      → (fs.remove_if_exists n f).1 ≡ true
      → content (fs.remove_if_exists n f).0 n ≡ none
  pub remove_other :
      (n : LogFile) (f : F) (m : LogFile)
      → m ≢ n
      → content (fs.remove_if_exists n f).0 m ≡ content f m
  pub renamed :
      (a b : LogFile) (f : F)
      → (fs.rename a b f).1 ≡ true
      → content (fs.rename a b f).0 b ≡ content f a
  pub rename_source :
      (a b : LogFile) (f : F)
      → (fs.rename a b f).1 ≡ true
      → a ≢ b
      → content (fs.rename a b f).0 a ≡ none
  pub rename_other :
      (a b : LogFile) (f : F) (m : LogFile)
      → m ≢ a
      → m ≢ b
      → content (fs.rename a b f).0 m ≡ content f m
  pub opened :
      (f : F)
      → content f current ≡ none
      → (fs.open_append f).1 ≡ true
      → content (fs.open_append f).0 current ≡ some empty
  pub open_other :
      (f : F) (m : LogFile) → m ≢ current → content (fs.open_append f).0 m ≡ content f m

abbrev pub Succeeds : {A : Type 0} → Outcome A → Type 0
Succeeds (a, ok _) = Unit
Succeeds (a, err _) = ⊥

-- `Q` holds of what a successful step gives.
abbrev pub After : {A : Type 0} → (A → Type 0) → Outcome A → Type 0
After Q (a, ok _) = Q a
After Q (a, err _) = Unit

pub and_then-After :
    {A : Type 0} (P Q : A → Type 0) (r : Outcome A) (next : A → Outcome A)
    → After P r
    → ((a : A) → P a → After Q (next a))
    → After Q (and_then r next)
and_then-After P Q (a, ok _) next h k = k a h
and_then-After P Q (a, err _) next h k = tt

pub or_stage-After :
    {A : Type 0} (Q : A → Type 0) (stage : LoggingFailureStage) (r : A × Bool)
    → (r.1 ≡ true → Q r.0)
    → After Q (or_stage stage r)
or_stage-After Q stage (a, true) h = h refl
or_stage-After Q stage (a, false) h = tt

pub After-map :
    {A : Type 0} (P Q : A → Type 0) (r : Outcome A) → ((a : A) → P a → Q a) → After P r → After Q r
After-map P Q (a, ok _) k h = k a h
After-map P Q (a, err _) k h = tt

-- `current` has the place 0.
abbrev place : LogFile → ℕ
place current = 0
place (archive index) = index

pub place-source_of : (i : ℕ) → place (source_of i) ≡ i
place-source_of zero = refl
place-source_of (suc i) = refl

place-differ : (a b : LogFile) → place a < place b → a ≢ b
place-differ a b h e = omega (arith, ap place e)

never_below_zero : (i : ℕ) → i < 0 → ⊥
never_below_zero i h = omega arith

is_some-false : {C : Type 0} (o : Option C) → is_some o ≡ false → o ≡ none
is_some-false none h = refl
is_some-false (some c) h = cc

module _ {F B C : Type 0} (fs : LogFiles F B) (content : F → LogFile → Option C) (empty : C)
    (disk : IsDirectory fs content empty) where
  -- One file has moved on, and its old place is free.
  record IsMoved (a b : LogFile) (f f' : F) : Type 0 where
    arrived : content f' b ≡ content f a
    left : content f' a ≡ none
    others : (m : LogFile) → m ≢ a → m ≢ b → content f' m ≡ content f m

  move-IsMoved :
      (a b : LogFile) (f : F)
      → a ≢ b
      → content f b ≡ none
      → (present : Bool) → is_some (content f a) ≡ present
      → After (IsMoved a b f) (move fs present a b f)
  move-IsMoved a b f d free true p = or_stage-After (IsMoved a b f) rotating (fs.rename a b f) (λ h.
      record {
        arrived = disk.renamed a b f h;
        left = disk.rename_source a b f h d;
        others = disk.rename_other a b f;
      })
  move-IsMoved a b f d free false p =
      let absent = is_some-false (content f a) p in
      record { arrived = free ∙ sym absent; left = absent; others = λ m ha hb. refl }

  -- The files up to an index have moved on by one, and the first place is free.
  pub record IsShifted (n : ℕ) (f f' : F) : Type 0 where
    pub moved : (i : ℕ) → i < n → content f' (archive (suc i)) ≡ content f (source_of i)
    pub free : content f' current ≡ none
    pub above : (j : ℕ) → n < j → content f' (archive j) ≡ content f (archive j)

  moved_on :
      (n : ℕ) (f f1 f' : F)
      → IsMoved (source_of n) (archive (suc n)) f f1
      → IsShifted n f1 f'
      → IsShifted (suc n) f f'
  moved_on n f f1 f' m s = record {
    moved = λ i h. elim (ℕ_discrete i n) [
      | yes e ↦
          subst (λ k. content f' (archive (suc k)) ≡ content f (source_of k)) (sym e)
            (s.above (suc n) (omega arith) ∙ m.arrived)
      | no d ↦
          s.moved i (omega arith)
          ∙ m.others (source_of i)
              (place-differ (source_of i) (source_of n)
                (omega (arith, place-source_of i, place-source_of n, d)))
              (place-differ (source_of i) (archive (suc n)) (omega (arith, place-source_of i)))
    ];
    free = s.free;
    above = λ j h.
        s.above j (omega arith)
        ∙ m.others (archive j)
            (λ e. place-differ (source_of n) (archive j) (omega (arith, place-source_of n)) (sym e))
            (λ e. place-differ (archive (suc n)) (archive j) h (sym e));
  }

  shift-IsShifted :
      (n : ℕ) (f : F) → content f (source_of n) ≡ none → After (IsShifted n f) (shift fs n f)
  unfolding shift
  shift-IsShifted zero f h = record {
    moved = λ i l. elim (never_below_zero i l) [ ];
    free = h;
    above = λ j l. refl;
  }
  shift-IsShifted (suc n) f h =
      and_then-After (IsMoved (source_of n) (archive (suc n)) f) (IsShifted (suc n) f)
        (move fs (fs.exists (source_of n) f) (source_of n) (archive (suc n)) f) (shift fs n)
        (move-IsMoved (source_of n) (archive (suc n)) f
          (place-differ (source_of n) (archive (suc n)) (omega (arith, place-source_of n))) h
          (fs.exists (source_of n) f) (sym (disk.exists (source_of n) f)))
        (λ f1 m.
          After-map (IsShifted n f1) (IsShifted (suc n) f) (shift fs n f1)
            (λ f'. moved_on n f f1 f' m) (shift-IsShifted n f1 m.left))

  -- One file is gone.
  record IsRemoved (n : LogFile) (f f' : F) : Type 0 where
    gone : content f' n ≡ none
    others : (m : LogFile) → m ≢ n → content f' m ≡ content f m

  removed_first :
      (n : ℕ) (f f1 f' : F)
      → IsRemoved (archive (suc n)) f f1
      → IsShifted (suc n) f1 f'
      → IsShifted (suc n) f f'
  removed_first n f f1 f' r s = record {
    moved = λ i h.
        s.moved i h
        ∙ r.others (source_of i)
            (place-differ (source_of i) (archive (suc n)) (omega (arith, place-source_of i)));
    free = s.free;
    above = λ j h.
        s.above j h
        ∙ r.others (archive j) (λ e. place-differ (archive (suc n)) (archive j) h (sym e));
  }

  pub shift_all-IsShifted : (n : ℕ) (f : F) → 0 < n → After (IsShifted n f) (shift_all fs n f)
  unfolding shift_all
  shift_all-IsShifted zero f h = elim (never_below_zero 0 h) [ ]
  shift_all-IsShifted (suc n) f h =
      let last = archive (suc n) in
      and_then-After (IsRemoved last f) (IsShifted (suc n) f)
        (or_stage prune (fs.remove_if_exists last f)) (shift fs (suc n))
        (or_stage-After (IsRemoved last f) prune (fs.remove_if_exists last f)
          (λ e. record { gone = disk.removed last f e; others = disk.remove_other last f }))
        (λ f1 r.
          After-map (IsShifted (suc n) f1) (IsShifted (suc n) f) (shift fs (suc n) f1)
            (λ f'. removed_first n f f1 f' r) (shift-IsShifted (suc n) f1 r.gone))
