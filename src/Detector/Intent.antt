-- ===== src/Detector/Intent.antt =====
-- What the monitor tells its intent consumer.
use chiu.Common.{◌≡◌, Bool, false, not, arith, List, [], ◌∷◌}
use chiu.Log.{SafeEvent}
use chiu.Network.{NetworkActivityEvent}
use chiu.Detector.{
  AutomaticDownloadSettings, IntentConsumer, AutomaticDownloadMonitor, is_idle, consume,
  apply_settings, shutdown,
}

-- A consumer that keeps the intent that it was last told, whether or not it can act on it.
pub record IsKeeping {S : Type 0} (c : IntentConsumer S) (intent : S → Bool) : Type 0 where
  pub told : (b : Bool) (s : S) → intent (c.set_automatic_intent b s).0 ≡ b
  pub recorded : (e : SafeEvent) (s : S) → intent (c.record_event e s) ≡ intent s

-- The calls of the monitor.
pub data Call : Type 0 where
  consumes : NetworkActivityEvent → Call
  applies_settings : AutomaticDownloadSettings → Call
  shuts_down : Call

module _ {S : Type 0} (c : IntentConsumer S) where
  unfoldable pub perform : Call → AutomaticDownloadMonitor S → AutomaticDownloadMonitor S
  perform (consumes e) m = consume c e m
  perform (applies_settings t) m = (apply_settings c t m).0
  perform shuts_down m = (shutdown c m).0

  unfoldable pub perform_all : List Call → AutomaticDownloadMonitor S → AutomaticDownloadMonitor S
  perform_all [] m = m
  perform_all (a ∷ calls) m = perform_all calls (perform a m)

  module _ {intent : S → Bool} (keeping : IsKeeping c intent) where
    abbrev Agrees : AutomaticDownloadMonitor S → Type 0
    Agrees m = intent m.consumer ≡ not (is_idle m.core.phase)

    pub perform-Agrees : (a : Call) (m : AutomaticDownloadMonitor S) → Agrees (perform a m)
    unfolding perform consume apply_settings shutdown
    perform-Agrees (consumes e) m = grind (arith, keeping.told, keeping.recorded)
    perform-Agrees (applies_settings t) m = keeping.told false m.consumer
    perform-Agrees shuts_down m = keeping.told false m.consumer

    -- With a consumer that keeps the intent that it was last told, also where it answers with an
    -- error, and that held it at the start exactly if the detector was not idle: it does so after
    -- any sequence of the monitor's calls.
    pub perform_all-Agrees :
        (calls : List Call) (m : AutomaticDownloadMonitor S)
        → Agrees m
        → intent (perform_all calls m).consumer ≡ not (is_idle (perform_all calls m).core.phase)
    unfolding perform_all
    perform_all-Agrees [] m h = h
    perform_all-Agrees (a ∷ calls) m h = perform_all-Agrees calls (perform a m) (perform-Agrees a m)
