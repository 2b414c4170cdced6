-- ===== src/Plugin/Supervisor/Silence.antt =====
-- The phase of the segment while no engine process runs, and what the callbacks of
-- src/plugin/mnm_plugin.cpp then do: supervise, renderBlock, processBlock.
use schwung_monomodule.Prelude.{◌≡◌, false}
use schwung_monomodule.Shm.{Segment}
use schwung_monomodule.Plugin.Instance.{Instance}
use schwung_monomodule.Plugin.Audio.{is_ready}
use schwung_monomodule.Plugin.Supervisor.{Supervisor}

-- Where no process runs, the segment does not say that one is ready.
abbrev pub IsSilent : Supervisor × Segment → Type 0
IsSilent (v, s) = v.running ≡ false → is_ready s.phase ≡ false
