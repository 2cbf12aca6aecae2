-- ===== src/Tests/Toggles.antt =====
-- The filter is switched on and off behind a start of src/deepstream_fpfilter_app.c without it.
use deepstream_fpfilter.Prelude.{
  ℕ, suc, ◌++◌, String, ◌≡◌, ◌≢◌, refl, true, false, some, [], ◌∷◌, arith, done, Returns,
}
use deepstream_fpfilter.Prelude.Text.{codes}
use deepstream_fpfilter.Pipeline.Ready.{IsMade}
use deepstream_fpfilter.Pipeline.Store.{
  Store, store, store-IsDocumented, store-IsMaking, store-Fits, empty_store,
}
use deepstream_fpfilter.Config.Path.{get_absolute_file_path}
use deepstream_fpfilter.Config.Tracker.{set_tracker_properties}
use deepstream_fpfilter.Bins.Filter.{create_filter_elements_bin}
use deepstream_fpfilter.Bins.Inside.{create_filter_elements_bin-HoldsBetween}
use deepstream_fpfilter.Control.App.{App, enable_fpfilter, disable_fpfilter}
use deepstream_fpfilter.Control.Race.{probes_fire, enable_lost}
use deepstream_fpfilter.Pipeline.Link.{pad_probe, add_elem_probe}
use deepstream_fpfilter.Control.Settled.{IsSettled, FitsIn, switches}
use deepstream_fpfilter.Main.Start.{Running}
use deepstream_fpfilter.Main.Switching.{laid_out-IsSettled, filter_there, switches-start}
use deepstream_fpfilter.Tests.Configs.{plain_name}
use deepstream_fpfilter.Tests.Starts.{
  config, started, make_filter, laid_out, plays_without_filter, plays_with_filter, store-HasPads,
  then-IsMade,
}

make_filter-Returns : (w : Store) → Returns (λ r. r.0 ≢ 0) (make_filter w)
unfolding create_filter_elements_bin set_tracker_properties get_absolute_file_path
make_filter-Returns w = ground (arith, w.bounded.positive)

has_pads : (e : ℕ) (name : String) (w : Store) → store.get_static_pad e name w ≢ 0
has_pads e name w = ground arith

fits_in : (prev next bin : ℕ) → FitsIn store prev next bin
fits_in prev next bin = record {
  src = has_pads bin "src";
  before = store-Fits prev bin;
  behind = store-Fits bin next;
}

makes_filter :
    (prev next : ℕ) (w : Store)
    → (bin : ℕ) × (w' : Store) × (make_filter w ≡ done (bin, w'))
      × IsMade store-IsMaking w w' bin
      × FitsIn store prev next bin
makes_filter prev next w =
    let (bin, w', e, _) =
      create_filter_elements_bin-HoldsBetween (config false) store-IsDocumented store-IsMaking
        (codes "/app") (codes "t.txt") refl plain_name w in
    let some_bin : bin ≢ 0 = rw e at (make_filter-Returns w) in
    (bin, w', e, then-IsMade w w' bin e some_bin, fits_in prev next bin)

switches-start_example :
    (r : Running Store (Unit {0})) × (started false ≡ done (some r))
    × ((b : App Store (Unit {0})) × (switches store make_filter (true ∷ false ∷ true ∷ []) r.app
          ≡ done b)
        × IsSettled store-IsMaking b
        × (b.is_fpfilter_enabled ≡ true))
switches-start_example =
    let (r, e, some_sink, off) = plays_without_filter in
    let prev_prev = r.elements.primary_detector in
    let prev = r.elements.nvvidconv1 in
    let next = r.elements.nvvidconv2 in
    (
      r,
      e,
      switches-start store-IsDocumented store-IsMaking make_filter empty_store r.elements r.sink
          r.app (laid_out false r e some_sink)
          (record {
            block = has_pads prev_prev "src";
            src = has_pads prev "src";
            sink = has_pads next "sink";
            fits = store-Fits prev next;
          })
          (λ _. fits_in prev next r.app.fpfilter_bin) (makes_filter prev next)
          (true ∷ false ∷ true ∷ []),
    )

-- The start with the filter, disabled and enabled at once.
enable_lost_example :
    (r : Running Store (Unit {0})) × (started true ≡ done (some r))
    × (let i = r.app.fp_filter_dynamic_link_info in
        (bin : ℕ) × (w : Store) × (b : App Store (Unit {0})) × (enable_fpfilter store make_filter
            (disable_fpfilter store r.app)
          ≡ done b)
        × (b.is_fpfilter_enabled ≡ true)
        × (b.fpfilter_bin ≡ bin)
        × (b.pads.probes
            ≡ (r.app.pads.probes ++ ((r.app.pads.next_id, pad_probe i) ∷ []))
              ++ ((suc r.app.pads.next_id, add_elem_probe (record i { main_element = bin })) ∷ []))
        × ((probes_fire store store-IsDocumented i
                (store-HasPads i)
                r.app.pads.next_id
                bin
                b.pads).world.inner.shape.next
              i.main_prev_element
            ≡ i.main_next_element))
enable_lost_example =
    let (r, e, some_sink, on) = plays_with_filter in
    let i = r.app.fp_filter_dynamic_link_info in
    let h = laid_out true r e some_sink in
    let s = laid_out-IsSettled store-IsMaking empty_store r.elements r.sink r.app h in
    let (bin, w, made, m, _) = makes_filter 0 0 r.app.pads.world in
    let (main, pipe) = filter_there store-IsMaking empty_store r.elements r.sink r.app on h in
    let (b, done_b, enabled, named, waits, joined) =
      enable_lost store-IsDocumented store-IsMaking make_filter r.app bin w (store-HasPads i)
        (store-Fits i.main_prev_element i.main_next_element)
        (has_pads i.main_prev_prev_element "src") on (s.with_filter on) main s.prev_there
        s.next_there pipe made m in
    (r, e, (bin, w, b, done_b, enabled, named, waits, joined))
