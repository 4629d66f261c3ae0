-- ===== src/Settings/Fitting.antt =====
-- Every settings value that is read can be written: the numbers of a document fit u64.
use chiu.Common.{
  ℕ, ◌≤◌, ◌<◌, ◌≡◌, String, Bool, true, false, Option, none, some, arith, Bool-cases, inl, inr,
  subst,
}
use chiu.Common.Result.{ok, ok-injective}
use chiu.Common.Time.{from_millis, u64_max}
use text.Mathlib.Text
use chiu.Detector.{try_new_settings}
use chiu.Settings.{Settings, SettingsUpdate, apply, default}
use chiu.Settings.Json.{Value, null, bool, number, string, array, object, Map, end, entry, get}
use chiu.Settings.Document.{and_get, detector_of}
use chiu.Settings.RoundTrip.{IsPersistable}
use chiu.Settings.Recovery.{u64_field, u64_field-positive, detector_field, recovered}

-- `as_u64` gives a u64.
abbrev mutual
  pub Fits : Value → Type 0
  Fits (number (some n)) = n ≤ u64_max
  Fits (object fields) = FitsMap fields
  Fits _ = Unit

  pub FitsMap : Map → Type 0
  FitsMap end = Unit
  FitsMap (entry k v rest) = Fits v × FitsMap rest

abbrev FitsOption : Option Value → Type 0
FitsOption none = Unit
FitsOption (some v) = Fits v

get-Fits : (k : String) (o : Map) → FitsMap o → FitsOption (get k o)
get-Fits k end f = tt
get-Fits k (entry j v rest) f = elim (Bool-cases (Text.◌==◌ j k)) [
  | inl e ↦ rw e f.0
  | inr e ↦ rw e (get-Fits k rest f.1)
]

and_get-detector_of-Fits :
    (k : String) (v : Option Value) → FitsOption v → FitsOption (and_get k (detector_of v).0)
and_get-detector_of-Fits k none f = tt
and_get-detector_of-Fits k (some (object fields)) f = get-Fits k fields f
and_get-detector_of-Fits k (some null) f = tt
and_get-detector_of-Fits k (some (bool _)) f = tt
and_get-detector_of-Fits k (some (number _)) f = tt
and_get-detector_of-Fits k (some (string _)) f = tt
and_get-detector_of-Fits k (some (array _)) f = tt

detector_field-Fits : (k : String) (o : Map) → FitsMap o → FitsOption (detector_field k o)
detector_field-Fits k o f =
    and_get-detector_of-Fits k (get "automatic_download" o) (get-Fits "automatic_download" o f)

u64_field-fits :
    (non_zero : Bool) (v : Option Value) (d : ℕ)
    → FitsOption v
    → d ≤ u64_max
    → u64_field non_zero v d ≤ u64_max
u64_field-fits non_zero v d f h = ground (arith, f, h)

of_millis-IsPersistable :
    (rate activation grace : ℕ)
    → 0 < rate
    → 0 < activation
    → activation ≤ u64_max
    → grace ≤ u64_max
    → IsPersistable (record {
      meaningful_receive_rate_bytes_per_second = rate;
      activation_qualification = from_millis activation;
      grace = from_millis grace;
    })
of_millis-IsPersistable rate activation grace hr ha fa fg = record {
  rate = hr;
  qualification = omega arith;
  qualification_whole = omega arith;
  qualification_fits = omega arith;
  grace_whole = omega arith;
  grace_fits = omega arith;
}

pub recovered-IsPersistable :
    (o : Map) → FitsMap o → IsPersistable (Settings.automatic_download (recovered o))
recovered-IsPersistable o f =
    of_millis-IsPersistable _ _ _
      (u64_field-positive (detector_field "meaningful_receive_rate_bytes_per_second" o) 1048576
        (omega arith))
      (u64_field-positive (detector_field "activation_qualification_milliseconds" o) 5000
        (omega arith))
      (u64_field-fits true (detector_field "activation_qualification_milliseconds" o) 5000
        (detector_field-Fits "activation_qualification_milliseconds" o f) (omega arith))
      (u64_field-fits false (detector_field "grace_milliseconds" o) 120000
        (detector_field-Fits "grace_milliseconds" o f) (omega arith))

pub default-IsPersistable : IsPersistable (Settings.automatic_download default)
default-IsPersistable =
    of_millis-IsPersistable 1048576 5000 120000 (omega arith) (omega arith) (omega arith)
      (omega arith)

-- The numbers of a change fit u64.
abbrev pub IsInRange : SettingsUpdate → Type 0
IsInRange (SettingsUpdate.automatic_download_tuning rate activation grace) =
    (activation ≤ u64_max) × (grace ≤ u64_max)
IsInRange _ = Unit

pub apply_tuning :
    (s s' : Settings) (rate activation grace : ℕ)
    → apply (SettingsUpdate.automatic_download_tuning rate activation grace) s ≡ ok s'
    → (0 < rate)
      × (0 < activation)
      × (record {
        meaningful_receive_rate_bytes_per_second = rate;
        activation_qualification = from_millis activation;
        grace = from_millis grace;
      }
          ≡ s'.automatic_download)
unfolding apply try_new_settings
apply_tuning s s' rate activation grace e = ground arith

pub apply-IsPersistable :
    (u : SettingsUpdate) (s s' : Settings)
    → IsInRange u
    → IsPersistable s.automatic_download
    → apply u s ≡ ok s'
    → IsPersistable s'.automatic_download
unfolding apply
apply-IsPersistable (SettingsUpdate.automatic_download_tuning rate activation grace) s s' r h e =
    let (hr, ha, t) = apply_tuning s s' rate activation grace e in
    subst IsPersistable t (of_millis-IsPersistable rate activation grace hr ha r.0 r.1)
apply-IsPersistable (SettingsUpdate.launch_at_login _) s s' r h e =
    subst (λ t. IsPersistable (Settings.automatic_download t)) (ok-injective e) h
apply-IsPersistable (SettingsUpdate.protect_on_battery _) s s' r h e =
    subst (λ t. IsPersistable (Settings.automatic_download t)) (ok-injective e) h
apply-IsPersistable (SettingsUpdate.automatic_update_checks_enabled _) s s' r h e =
    subst (λ t. IsPersistable (Settings.automatic_download t)) (ok-injective e) h
apply-IsPersistable (SettingsUpdate.automatic_download_protection_enabled _) s s' r h e =
    subst (λ t. IsPersistable (Settings.automatic_download t)) (ok-injective e) h
apply-IsPersistable (SettingsUpdate.last_automatic_update_check_unix_seconds _) s s' r h e =
    subst (λ t. IsPersistable (Settings.automatic_download t)) (ok-injective e) h
