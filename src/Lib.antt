-- ===== src/Lib.antt =====
-- Monomodule: a synthesizer (One) and an effect (FX) module for a groovebox. The host calls a plugin on
-- its audio thread; the sound is made by an engine process that the plugin starts and that shares a
-- memory segment with it. This library models both halves and what they share.
--
-- Parts and files:
-- - Shm: src/common/mnm_shm.h. The segment (`Segment`), its command ring (`push_cmd` is pushCmd, `drain`
--   the child's loop over it). Shm/Ring: the ring as a bounded queue. Shm/Spsc: the callback and the
--   child interleaved at their accesses to the ring.
-- - Clock: the two counters by which callback and child share the audio slots. `play_block` and
--   `to_s16` are of src/plugin/mnm_plugin.cpp, `plan` is the head of the loop of
--   src/child/mnm_engine.cpp. Clock/Race: both interleaved. Clock/Samples: sample conversions.
-- - Text: what the plugin uses of the C library's text functions, on bytes.
-- - Ui: the tables of src/plugin/generated/mnm_ui.h as data (Ui/One, Ui/Fx), checked in Ui/Checks.
-- - Plugin: src/plugin/mnm_plugin.cpp. Params (the table of kit bytes), Convert (toRaw, fromRaw,
--   parseMachine), Instance (push, replay, switchMachine, loadPreset), State (writeState, readState),
--   Entry (createInstance, onMidi, setParam), Audio (tick, renderBlock, processBlock, resetSegment),
--   Supervisor (the restart policy of supervise, refreshPresets), Template (expandInto, serveTemplate),
--   Query (getParam, getError), Catalog (buildCatalog).
-- - Child: src/child/mnm_engine.cpp. Engine (applyCmd), Block (an engine's turn in the loop: waking,
--   parking, muting), Loop (an iteration: plan, commands, turns, statistics).
-- - Voice: src/engine/MonoVoice.cpp. The FIFO between blocks of 16 frames and the frames asked for;
--   prewarm.
-- - Dsp: src/engine/dsp/DspEngine.cpp, the host of the emulated DSP. The run to a word of the host port and
--   a block (runUntilTx, renderBlock); Dsp/Loading (loadImage, installStub, skipIdleLoops,
--   uploadDigibank, reset).
--
-- How they interact: setParam changes the table and pushes commands (Plugin/Entry, Shm); the child drains
-- them into its engines (Child/Engine) and renders blocks ahead of the callback (Clock). The supervisor
-- restarts a dead engine, and the next tick sends it the whole table (Plugin/Audio/Restart). A rendered
-- block goes back through its slot to the callback (Plugin/Audio/Heard).
--
-- Conventions: machine words carry their wrap-around (`u32`, `sub32`); a tempo is a number of ten-
-- thousandths of a beat per minute where the source has a float; samples are 24-bit integers, which
-- the source's floats between voice and slot hold exactly. The current machine is a natural number:
-- every writer has looked it up in the machine list or reads it off a byte. `drain` runs on fuel 1025,
-- one more than the ring holds, and `drain_refines` shows that this is enough; `decimal` runs on its
-- own argument as fuel. The interleaving of the block clock leaves out a child that stops for 2 ^ 31
-- blocks (72 days), an effect that runs for 2 ^ 32 blocks, and a change of an effect's depth while it
-- plays. A catalog is known by its number in the order of allocation. The int sum of toRaw, where it
-- overflows, wraps round. strtol does not saturate at the bounds of long. The loop of runUntilTx runs
-- on one more round than its budget of instructions, as each round takes one; the emulator's
-- instruction counter does not wrap. Templates are cut into tokens with their length as fuel, and
-- fragments nest twice at most. The percentages of getParam are computed exactly where the source uses
-- double.
--
-- Parameters: what an engine calls of its voice (`VoiceOps`, `RenderOps`), the HostModel and the DSP
-- engine inside a voice (`Parts`), the emulator with its assembler under the DSP engine (`ChipOps`, its
-- laws `Advances`, `IsMemory`, `Pops`), the generated JSON texts (`Texts`), the kits of upstream's parser
-- (`Kit`), `ReadDouble` for strtod with lround, upstream's numbers of the first machines and of GND, the
-- times that turns take, the answers of the system in the supervisor's loop.
--
-- Not modelled: the reading of dump and OS files, the supervisor's process handling, the setting up of the
-- emulator, the emulator and firmware submodules, and the tools.
pub mod Prelude
pub mod Shm
pub mod Clock
pub mod Text
pub mod Ui
pub mod Plugin
pub mod Child
pub mod Voice
pub mod Dsp
