-- ===== src/Examples/Session.antt =====
-- The theorems on sessions and names, at concrete inputs.
use cluster_api_provider_maa.Base.{pos, ◌≡◌, ◌≢◌, refl, false, [], ◌∷◌, none, some, ok, ◌==◌}
use cluster_api_provider_maa.Maintenance.Session.{
  State, status_active, status_completed, empty_state, load_session, save_session, start_session,
  complete_session, is_running,
}
use cluster_api_provider_maa.Maintenance.Session.Laws.{
  Loads, stored, load_session-save_session, start_session-start_session, IsCompleted,
  complete_session-complete_session,
}
use cluster_api_provider_maa.Examples.Formats.{codec, codec_laws}
use cluster_api_provider_maa.Examples.Memory.{World, config_maps, config_maps_laws, fresh, runtime}

abbrev pub session : State
session = record {
  op_id = "op1";
  status = status_active;
  started_at = 3;
  current_host = "host1";
  active_sessions = pos 1;
  affected_wlc_clusters = "wlc" ∷ [];
  pending_ready_vm_replacements = [];
}

saved : World
unfolding save_session config_maps ◌==◌
saved = (save_session codec config_maps "ns" session fresh).1

is_saved : save_session codec config_maps "ns" session fresh ≡ (ok tt, saved)
unfolding save_session config_maps ◌==◌ saved
is_saved = refl

load_session-save_session_example :
    Loads codec codec_laws config_maps config_maps_laws "ns" (stored session) saved
load_session-save_session_example =
    load_session-save_session codec codec_laws config_maps config_maps_laws "ns" session fresh saved
      is_saved

started : World
unfolding start_session config_maps ◌==◌
started = (start_session codec config_maps runtime "ns" "host1" fresh).1

new_session : State
new_session = record {
  op_id = "op1";
  status = status_active;
  started_at = 7;
  current_host = "host1";
  active_sessions = pos 1;
  affected_wlc_clusters = [];
  pending_ready_vm_replacements = [];
}

is_started : start_session codec config_maps runtime "ns" "host1" fresh ≡ (ok new_session, started)
unfolding start_session config_maps ◌==◌ started new_session
is_started = refl

loads_nothing : load_session codec config_maps "ns" fresh ≡ (ok (empty_state, none), fresh)
unfolding load_session config_maps
loads_nothing = refl

none_runs : is_running codec config_maps empty_state none ≡ false
unfolding is_running
none_runs = refl

start_session-start_session_example :
    ((new_session.status ≡ status_active)
      × (new_session.active_sessions ≡ pos 1)
      × (new_session.current_host ≡ "host1"))
    × (start_session codec config_maps runtime "ns" "host2" started
        ≡ (ok (stored new_session), started))
start_session-start_session_example =
    start_session-start_session codec codec_laws config_maps config_maps_laws runtime "ns" "host1"
      "host2" empty_state new_session none fresh fresh started loads_nothing none_runs is_started

saved-Loads : Loads codec codec_laws config_maps config_maps_laws "ns" (stored session) saved
saved-Loads =
    load_session-save_session codec codec_laws config_maps config_maps_laws "ns" session fresh saved
      is_saved

completed : World
unfolding complete_session config_maps ◌==◌ saved
completed = (complete_session codec config_maps "ns" saved).1

is_completed : complete_session codec config_maps "ns" saved ≡ (ok tt, completed)
unfolding complete_session config_maps ◌==◌ saved completed
is_completed = refl

is_open : session.status ≢ status_completed
is_open h = cc h

complete_session-complete_session_example :
    (st' : State) × IsCompleted (stored session) st'
    × Loads codec codec_laws config_maps config_maps_laws "ns" st' completed
    × (complete_session codec config_maps "ns" completed ≡ (ok tt, completed))
complete_session-complete_session_example =
    complete_session-complete_session codec codec_laws config_maps config_maps_laws "ns"
      (stored session) (some saved-Loads.0) saved saved completed saved-Loads.1 is_open is_completed
