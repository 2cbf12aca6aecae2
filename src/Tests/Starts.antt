-- ===== src/Tests/Starts.antt =====
-- The bins and the start of src/deepstream_fpfilter_app.c on a concrete GStreamer.
use deepstream_fpfilter.Prelude.{
  ℕ, ◌≡◌, ◌≢◌, refl, Bool, true, false, some, List, [], ◌∷◌, arith, done, Returns, Holds, Run,
  Option,
}
use deepstream_fpfilter.Prelude.Int.{pos}
use deepstream_fpfilter.Prelude.Text.{codes}
use deepstream_fpfilter.Pipeline.Store.{
  Store, store, store-IsDocumented, store-IsMaking, store-Fits, empty_store,
}
use deepstream_fpfilter.Config.KeyFile.{KeyFiles}
use deepstream_fpfilter.Config.Property.{get_fpfilter_status_from_cfg_file}
use deepstream_fpfilter.Config.Path.{get_absolute_file_path}
use deepstream_fpfilter.Config.Tracker.{set_tracker_properties}
use deepstream_fpfilter.Bins.Row.{HoldsRow}
use deepstream_fpfilter.Bins.Mp4
use deepstream_fpfilter.Bins.FileSink
use deepstream_fpfilter.Bins.Filter.{create_filter_elements_bin}
use deepstream_fpfilter.Main.Start.{Running, start}
use deepstream_fpfilter.Main.Started.{IsLaidOut, LaidOut, start-IsLaidOut}
use deepstream_fpfilter.Pipeline.Splice.{spliced, HasPads}
use deepstream_fpfilter.Main.FirstEnable.{enable_fpfilter-start}
use deepstream_fpfilter.Control.App.{App, enable_fpfilter}
use deepstream_fpfilter.Pipeline.Ready.{IsMade}
use deepstream_fpfilter.Pipeline.Link.{LinkUnlinkInfo, add_elem_probe, add_elem_probe_cb}
use deepstream_fpfilter.Main.Builds.{default_build}
use deepstream_fpfilter.Tests.Configs.{files, plain_name}

-- The switch of the filter in the configuration.
abbrev pub config : Bool → KeyFiles
config on = record (files (some (pos 640))) { get_boolean = λ f group key. some on }

store_demuxes : (w : Store) → (store.factory_make "qtdemux" w).0 ≢ 0
store_demuxes w = ground (arith, w.bounded.positive)

abbrev mp4_source : List ℕ → Store → ℕ × Store
mp4_source location w = (Mp4.create_source_bin store location w).0

abbrev pub argv : List (List ℕ)
argv = codes "app" ∷ codes "in.mp4" ∷ codes "labels" ∷ codes "out.mp4" ∷ []

abbrev pub started : Bool → Run (Option (Running Store (Unit {0})))
started on =
    start (config on) store mp4_source (FileSink.create_sink_bin store false)
      (create_filter_elements_bin (config on) store) true 1 tt argv empty_store

-- `main` comes to play the pipeline, with the filter and without.
pub plays_with_filter :
    (r : Running Store (Unit {0})) × (started true ≡ done (some r))
    × (r.sink ≢ 0)
    × (r.app.is_fpfilter_enabled ≡ true)
unfolding start Mp4.create_source_bin FileSink.create_sink_bin create_filter_elements_bin
    get_fpfilter_status_from_cfg_file set_tracker_properties get_absolute_file_path
plays_with_filter = (_, refl, (λ e. omega arith), refl)

pub plays_without_filter :
    (r : Running Store (Unit {0})) × (started false ≡ done (some r))
    × (r.sink ≢ 0)
    × (r.app.is_fpfilter_enabled ≡ false)
unfolding start Mp4.create_source_bin FileSink.create_sink_bin get_fpfilter_status_from_cfg_file
plays_without_filter = (_, refl, (λ e. omega arith), refl)

start-IsLaidOut_example : Returns (Holds (LaidOut store-IsMaking empty_store)) (started true)
start-IsLaidOut_example =
    start-IsLaidOut (config true) store store-IsDocumented store-IsMaking mp4_source
      (FileSink.create_sink_bin store false) (create_filter_elements_bin (config true) store)
      (default_build store-IsDocumented store-IsMaking (config true) (codes "/app") (codes "t.txt")
        refl plain_name false store_demuxes)
      true 1 tt argv empty_store

-- What `main` has laid out, where it comes to play.
pub laid_out :
    (on : Bool) (r : Running Store (Unit {0}))
    → started on ≡ done (some r)
    → r.sink ≢ 0
    → IsLaidOut store-IsMaking empty_store r.elements r.sink r.app
laid_out on r e some_sink =
    rw e at
      (start-IsLaidOut (config on) store store-IsDocumented store-IsMaking mp4_source
        (FileSink.create_sink_bin store false) (create_filter_elements_bin (config on) store)
        (default_build store-IsDocumented store-IsMaking (config on) (codes "/app") (codes "t.txt")
          refl plain_name false store_demuxes)
        true 1 tt argv empty_store)
      some_sink

create_sink_bin-HoldsRow_example :
    let (bin, w') = FileSink.create_sink_bin store true (codes "out.mp4") empty_store in
    (filter : ℕ) × (encoder : ℕ) × (parser : ℕ) × (mux : ℕ) × (sink : ℕ) × HoldsRow store-IsMaking
      empty_store w' bin filter
      (encoder ∷ parser ∷ mux ∷ sink ∷ [])
unfolding FileSink.create_sink_bin
create_sink_bin-HoldsRow_example =
    FileSink.create_sink_bin-HoldsRow store-IsDocumented store-IsMaking true (codes "out.mp4")
      empty_store (λ e. omega arith)

-- The source bin 1 with the elements 2 to 5, in the pipeline 9, when the demuxer has found its stream.
abbrev with_source : Store
with_source = store.bin_add 9 1 (mp4_source (codes "in.mp4") empty_store).1

pub store-HasPads : (i : LinkUnlinkInfo) → HasPads store i
store-HasPads i = record { src = λ w. omega arith; sink = λ w. omega arith }

abbrev pub make_filter : Store → Run (ℕ × Store)
make_filter = create_filter_elements_bin (config false) store

-- Behind the start without the filter, the filter can be made.
then_makes_filter :
    (r : Running Store (Unit {0})) × (started false ≡ done (some r))
    × (r.sink ≢ 0)
    × (r.app.is_fpfilter_enabled ≡ false)
    × (bin : ℕ) × (w : Store) × (make_filter r.app.pads.world ≡ done (bin, w))
    × (bin ≢ 0)
unfolding start Mp4.create_source_bin FileSink.create_sink_bin get_fpfilter_status_from_cfg_file
    create_filter_elements_bin set_tracker_properties get_absolute_file_path
then_makes_filter = (_, refl, (λ e. omega arith), refl, _, _, refl, (λ e. omega arith))

pub then-IsMade :
    (w w' : Store) (bin : ℕ)
    → make_filter w ≡ done (bin, w')
    → bin ≢ 0
    → IsMade store-IsMaking w w' bin
then-IsMade w w' bin e = rw e at (
    (default_build store-IsDocumented store-IsMaking (config false) (codes "/app") (codes "t.txt")
        refl plain_name false store_demuxes).filter_made
      w)

enable_fpfilter-start_example :
    (r : Running Store (Unit {0})) × (bin : ℕ) × (w : Store) × (let info =
        record (r.app.fp_filter_dynamic_link_info) { main_element = bin } in
      (b : App Store (Unit {0})) × (enable_fpfilter store make_filter r.app ≡ done b)
      × (b.is_fpfilter_enabled ≡ true)
      × (b.pads.probes ≡ (r.app.pads.next_id, add_elem_probe info) ∷ [])
      × (let t = (add_elem_probe_cb store r.app.pads.next_id info b.pads).1 in
          (t.world.inner.shape ≡ spliced 2 info w.inner.shape) × (t.probes ≡ [])))
enable_fpfilter-start_example =
    let (r, e, some_sink, off, bin, w, made, some_bin) = then_makes_filter in
    (
      r,
      bin,
      w,
      enable_fpfilter-start store-IsDocumented store-IsMaking make_filter empty_store r.elements
          r.sink r.app bin w (laid_out false r e some_sink) off made
          (then-IsMade r.app.pads.world w bin made some_bin)
          (store-HasPads (record (r.app.fp_filter_dynamic_link_info) { main_element = bin }))
          (record {
            before = store-Fits r.app.fp_filter_dynamic_link_info.main_prev_element bin;
            behind = store-Fits bin r.app.fp_filter_dynamic_link_info.main_next_element;
          })
          (λ h. omega arith),
    )
