-- ===== src/Lib.antt =====
-- A model of lsfg-nx, a frame generation layer for a console: a plugin inside the game's process
-- observes and presents frames, a backend runs a chain of shader passes on them, and an overlay in
-- another process controls the plugin. The passes come from a cache that a preparation step fills.
--
-- Numbers are natural numbers. Every sum, product or difference of machine words that the source
-- may let wrap is reduced modulo its word where it stands; one that the code's own tests keep in
-- range is plain. An enumerator or a byte that comes from shared memory or from a file is a number.
-- A vector, an array or a span is a list. A method returns the state that it leaves.
--
-- Base holds the shared names, lists, tests and the facts on bit operations. Check is the shape of
-- the validators: tests that may return early, loops of these, and reads that may be out of bounds.
-- Outcome is the shape of the functions that fill an output and return a code: a result, a code, or
-- the fault of an access out of bounds.
--
-- - Error: common/error, the codes and their names.
-- - Protocol: common/protocol, the blocks shared with the overlay. Blocks has their validators,
--   Queue the bounded queue that the report ring promises, and Ring its refinement. One call is one
--   step.
-- - Log: common/logging, the ring log; the spin lock makes each method one step.
-- - Instrument: runtime/instrument, one module for each class: Stat, TextureLog, Swapchain, Trace,
--   Timeline.
-- - Pe: common/pe, the resource directory of a Windows image. Walk is the recursive walk of its
--   entries, InImage is about where the bytes of a resource lie.
-- - Dksh: common/dksh, `validate` of a compiled shader module; Accepts is about what it accepts.
-- - Hash: common/hash. Compress is `compress`; Blocks is the loop over blocks, Stream about what the
--   buffer holds between updates, Reference about the digest, and Fields about `update_field`.
-- - Profile: common/profile. Text is the trimming and the numbers, Apply the keys, Parse the lines,
--   Check `check` and what is written. Numbers, Valid and Kept are about `parse`, Allowed about
--   `check` and `format_id`.
-- - Graph: common/image-graph, with the slots of common/shader-set in Shaders. Builder, Prepass,
--   Frames and Build are `build`, in the order of its passes. Validate is `validate`; Accepts,
--   WellFormed and Wraps are about what it accepts. Modules is `block_index_of` and
--   `check_against_modules`, and Interfaces about what that accepts; Extent is `flow_extent`,
--   `evaluate` and `owned_memory_bytes`, with the halvings in Sizes. Required is `required_modules`;
--   Covers, Sorted and Listed are about its list.
-- - Cache: common/cache-format. Manifest is `initialize`, `describe` and `configuration`, Options
--   `pack_options`, Crc `crc32`, Key `cache_key`, with KeyFields about what it hashes, Validate the
--   three functions `validate`; Accepts and Runs are on what these accept, Wraps about a guard whose
--   sum wraps. Store has the data of common/cache-store, and Compare its `compare`; SameModules is
--   about that.
-- - Image: common/image-file. Codec is `encode` and `decode`, Dds the same of a texture file;
--   RoundTrip and DdsRoundTrip are about writing and reading.
-- - Backend: runtime/backend. Arena and Layout are layout.cpp, with the laws of `Arena::place` in
--   Arena/Laws and the descriptors of a layout in Layout/Issued. Load is cache_load.cpp: Module one
--   program, Accept the whole, and Images, Dispatches and Total about what it promises to the code
--   after it. Schedule is schedule.cpp: Lcm, the marks of a frame in Frames, measured frames and
--   the cycle in Warmup, what an accepted schedule promises in Clean. Built runs Graph.Build and
--   Schedule together on each shape of a configuration of one generated frame. Binding is
--   binding.cpp, with Slots and Loop about what it binds, Safe about its reads, and Issued about
--   the descriptors that it takes from Layout.
-- - Plugin: runtime/plugin. Coexistence is coexistence.cpp, a trial of the graphics library beside
--   the game. The answers of that library are a parameter. Shader is what is read of the shader and
--   of the game's texture, Run is `run`, a function for each handle, Allocate the arena that the
--   library allocates from. Reads and Released are about what a run does.
--
-- The greatest common divisor takes its second argument as fuel, which falls in each round. The loop
-- of `Sha256::update` over blocks has the number of the bytes left, and the padding loop of `finish`
-- has 64 rounds; Hash/Blocks and Hash/Reference show that both end within that. All other loops are
-- bounded by the counts of the source.
--
-- Not modelled: the calls of the graphics, shader and file libraries, and with them the files of a
-- cache; the inventory of SPIR-V modules and what depends on it; the hooks into the game, the user
-- interfaces, and floating-point statistics.
pub mod Base
pub mod Error
pub mod Check
pub mod Outcome
pub mod Protocol
pub mod Log
pub mod Instrument
pub mod Pe
pub mod Dksh
pub mod Hash
pub mod Profile
pub mod Graph
pub mod Cache
pub mod Image
pub mod Backend
pub mod Plugin
