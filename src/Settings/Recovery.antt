-- ===== src/Settings/Recovery.antt =====
-- Reading any document: each field is the document's where it is there in the right form, and the
-- default where it is not.
use chiu.Common.{
  ℕ, ◌<◌, ◌≡◌, refl, ◌==◌, String, Bool, true, false, not, ◌&&◌, if◌then◌else◌, Option, none, some,
  arith, List, [], ◌∷◌,
}
use chiu.Common.Time.{from_millis}
use chiu.Detector.{try_new_settings}
use chiu.Settings.{Settings, SettingPath, RecoveryReason, FieldRecovery}
use chiu.Settings.Json.{Value, null, bool, number, Map, get}
use chiu.Settings.Document.{
  recovery, bool_of, optional_u64_of, nested_u64_of, and_get, detector_of, from_object, settings_of,
  read_bool, read_optional_u64, read_nested_u64,
}

-- What a field is, and whether it needs no recovery.
abbrev pub bool_field : Option Value → Bool → Bool
bool_field (some (bool b)) d = b
bool_field _ d = d

abbrev pub is_bool : Option Value → Bool
is_bool (some (bool b)) = true
is_bool _ = false

abbrev pub optional_field : Option Value → Option ℕ → Option ℕ
optional_field (some null) d = none
optional_field (some (number (some n))) d = some n
optional_field _ d = d

abbrev pub is_optional : Option Value → Bool
is_optional (some null) = true
is_optional (some (number (some n))) = true
is_optional _ = false

abbrev pub u64_field : Bool → Option Value → ℕ → ℕ
u64_field non_zero (some (number (some n))) d = if n == 0 && non_zero then d else n
u64_field non_zero _ d = d

abbrev pub is_u64 : Bool → Option Value → Bool
is_u64 non_zero (some (number (some n))) = not (n == 0 && non_zero)
is_u64 non_zero _ = false

abbrev pub none_yet : List FieldRecovery → Bool
none_yet [] = true
none_yet (_ ∷ _) = false

none_yet-recovery :
    (p : SettingPath) (r : RecoveryReason) (rs : List FieldRecovery)
    → none_yet (recovery p r rs) ≡ false
none_yet-recovery p r [] = refl
none_yet-recovery p r (x ∷ rs) = refl

-- A reader's value, and whether recoveries were needed so far.
abbrev Reads {ℓ} : {A : Type ℓ} → A × List FieldRecovery → A → Bool → List FieldRecovery → Type ℓ
Reads (a', rs') a fine rs = (a' ≡ a) × (none_yet rs' ≡ (none_yet rs && fine))

bool_of_lem :
    (v : Option Value) (p : SettingPath) (d : Bool) (rs : List FieldRecovery)
    → Reads (bool_of v p d rs) (bool_field v d) (is_bool v) rs
bool_of_lem v p d rs = ground (
  arith,
  none_yet-recovery p RecoveryReason.missing rs,
  none_yet-recovery p RecoveryReason.wrong_type rs,
)

optional_u64_of_lem :
    (v : Option Value) (p : SettingPath) (d : Option ℕ) (rs : List FieldRecovery)
    → Reads (optional_u64_of v p d rs) (optional_field v d) (is_optional v) rs
optional_u64_of_lem v p d rs = ground (
  arith,
  none_yet-recovery p RecoveryReason.missing rs,
  none_yet-recovery p RecoveryReason.wrong_type rs,
  none_yet-recovery p RecoveryReason.invalid_value rs,
)

nested_u64_of_lem :
    (v : Option Value) (p : SettingPath) (d : ℕ) (non_zero : Bool) (r : RecoveryReason)
    (rs : List FieldRecovery)
    → Reads (nested_u64_of v p d non_zero r rs) (u64_field non_zero v d) (is_u64 non_zero v) rs
nested_u64_of_lem v p d non_zero r rs = ground (
  arith,
  none_yet-recovery p r rs,
  none_yet-recovery p RecoveryReason.wrong_type rs,
  none_yet-recovery p RecoveryReason.invalid_value rs,
)

pub u64_field-positive : (v : Option Value) (d : ℕ) → 0 < d → 0 < u64_field true v d
u64_field-positive v d h = ground (arith, h)

settings_read :
    (a b c d : Bool) (e : Option ℕ) (f g h : ℕ) (rs : List FieldRecovery)
    → 0 < f
    → 0 < g
    → settings_of a b c d e (try_new_settings f (from_millis g) (from_millis h)) rs
      ≡ some (
        record {
          automatic_download_protection_enabled = a;
          protect_on_battery = b;
          launch_at_login = c;
          automatic_update_checks_enabled = d;
          last_automatic_update_check_unix_seconds = e;
          automatic_download = record {
            meaningful_receive_rate_bytes_per_second = f;
            activation_qualification = from_millis g;
            grace = from_millis h;
          };
        },
        rs,
      )
unfolding try_new_settings
settings_read a b c d e f g h rs hf hg = ground (arith, hf, hg)

-- The fields of a document, each by itself.
abbrev pub detector_field : String → Map → Option Value
detector_field k o = and_get k (detector_of (get "automatic_download" o)).0

module _ (o : Map) where
  abbrev pub recovered : Settings
  recovered = record {
    automatic_download_protection_enabled =
        bool_field (get "automatic_download_protection_enabled" o) true;
    protect_on_battery = bool_field (get "protect_on_battery" o) false;
    launch_at_login = bool_field (get "launch_at_login" o) true;
    automatic_update_checks_enabled = bool_field (get "automatic_update_checks_enabled" o) true;
    last_automatic_update_check_unix_seconds =
        optional_field (get "last_automatic_update_check_unix_seconds" o) none;
    automatic_download = record {
      meaningful_receive_rate_bytes_per_second =
          u64_field true (detector_field "meaningful_receive_rate_bytes_per_second" o) 1048576;
      activation_qualification =
          from_millis
            (u64_field true (detector_field "activation_qualification_milliseconds" o) 5000);
      grace = from_millis (u64_field false (detector_field "grace_milliseconds" o) 120000);
    };
  }

  -- Every field is there in the right form.
  abbrev pub is_complete : Bool
  is_complete =
      is_bool (get "automatic_download_protection_enabled" o)
      && is_bool (get "protect_on_battery" o)
      && is_bool (get "launch_at_login" o)
      && is_bool (get "automatic_update_checks_enabled" o)
      && is_optional (get "last_automatic_update_check_unix_seconds" o)
      && is_u64 true (detector_field "meaningful_receive_rate_bytes_per_second" o)
      && is_u64 true (detector_field "activation_qualification_milliseconds" o)
      && is_u64 false (detector_field "grace_milliseconds" o)

  -- No document makes the reader panic: whatever an object holds, each setting is the object's where
  -- it is there in the right form and the default where it is not, and recoveries are reported
  -- exactly if some field was not.
  pub from_object-recovers :
      (rs : List FieldRecovery) × (from_object o ≡ some (recovered, rs))
      × (none_yet rs ≡ is_complete)
  unfolding from_object read_bool read_optional_u64 read_nested_u64
  from_object-recovers =
      let p1 = SettingPath.automatic_download_protection_enabled in
      let p2 = SettingPath.protect_on_battery in
      let p3 = SettingPath.launch_at_login in
      let p4 = SettingPath.automatic_update_checks_enabled in
      let p5 = SettingPath.last_automatic_update_check_unix_seconds in
      let p6 = SettingPath.meaningful_receive_rate_bytes_per_second in
      let p7 = SettingPath.activation_qualification_milliseconds in
      let p8 = SettingPath.grace_milliseconds in
      let v1 = get "automatic_download_protection_enabled" o in
      let v2 = get "protect_on_battery" o in
      let v3 = get "launch_at_login" o in
      let v4 = get "automatic_update_checks_enabled" o in
      let v5 = get "last_automatic_update_check_unix_seconds" o in
      let v6 = detector_field "meaningful_receive_rate_bytes_per_second" o in
      let v7 = detector_field "activation_qualification_milliseconds" o in
      let v8 = detector_field "grace_milliseconds" o in
      let reason = (detector_of (get "automatic_download" o)).1 in
      let r1 = (bool_of v1 p1 true []).1 in
      let r2 = (bool_of v2 p2 false r1).1 in
      let r3 = (bool_of v3 p3 true r2).1 in
      let r4 = (bool_of v4 p4 true r3).1 in
      let r5 = (optional_u64_of v5 p5 none r4).1 in
      let r6 = (nested_u64_of v6 p6 1048576 true reason r5).1 in
      let r7 = (nested_u64_of v7 p7 5000 true reason r6).1 in
      let r8 = (nested_u64_of v8 p8 120000 false reason r7).1 in
      let h1 = bool_of_lem v1 p1 true [] in
      let h2 = bool_of_lem v2 p2 false r1 in
      let h3 = bool_of_lem v3 p3 true r2 in
      let h4 = bool_of_lem v4 p4 true r3 in
      let h5 = optional_u64_of_lem v5 p5 none r4 in
      let h6 = nested_u64_of_lem v6 p6 1048576 true reason r5 in
      let h7 = nested_u64_of_lem v7 p7 5000 true reason r6 in
      let h8 = nested_u64_of_lem v8 p8 120000 false reason r7 in
      (
        r8,
        rw (h1.0, h2.0, h3.0, h4.0, h5.0, h6.0, h7.0, h8.0)
            (settings_read (bool_field v1 true) (bool_field v2 false) (bool_field v3 true)
              (bool_field v4 true) (optional_field v5 none) (u64_field true v6 1048576)
              (u64_field true v7 5000) (u64_field false v8 120000) r8
              (u64_field-positive v6 1048576 (omega arith))
              (u64_field-positive v7 5000 (omega arith))),
        rw (h8.1, h7.1, h6.1, h5.1, h4.1, h3.1, h2.1, h1.1),
      )
