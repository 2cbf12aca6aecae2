-- ===== src/Tests/Links.antt =====
-- The filter bin in a small pipeline, for src/ds_dynamic_link_unlink_element.c: the converters 2 and 3
-- behind the detector 1, the bin 4, the pipeline 9.
use deepstream_fpfilter.Prelude.{
  ℕ, ◌≡◌, refl, true, false, List, [], ◌∷◌, ◌==◌, if◌then◌else◌, arith,
}
use deepstream_fpfilter.Pipeline.Gst.{View, spread, update}
use deepstream_fpfilter.Pipeline.Graph.{Graph, graph, graph-IsDocumented, graph-Fits}
use deepstream_fpfilter.Pipeline.Link.{
  LinkUnlinkInfo, Probe, Pads, add_elem_probe, remove_elem_probe, probe_drop, remove_probe,
  add_elem_probe_cb, remove_elem_probe_cb,
}
use deepstream_fpfilter.Pipeline.Splice.{
  spliced, IsSpliceable, HasPads, FitsBetween, add_elem_probe_cb_splices,
}
use deepstream_fpfilter.Pipeline.Unsplice.{
  unspliced, spliced-IsSpliced, remove_elem_probe_cb_unsplices,
  remove_elem_probe_cb-add_elem_probe_cb,
}

abbrev pub bin_info : ℕ → LinkUnlinkInfo
bin_info bin = record {
  main_element = bin;
  main_prev_element = 2;
  main_prev_prev_element = 1;
  main_next_element = 3;
  pipeline = 9;
  loop = 8;
}

abbrev pub chain : ℕ → ℕ
chain x = if x == 1 then 2 else if x == 2 then 3 else 0

abbrev pub plain : View
plain = record { next = chain; parent = λ x. if x == 4 then 0 else 9; playing = λ x. true }

abbrev pub pads_of : View → List (ℕ × Probe) → Pads Graph
pads_of v ps = record {
  world = record { shape = v; fresh = 5 };
  probes = ps;
  next_id = 7;
  copies = 1;
}

plain-IsSpliceable : IsSpliceable (bin_info 4) plain
plain-IsSpliceable = record {
  some_main = λ e. omega arith;
  linked = refl;
  some_next = λ e. omega arith;
  loose = refl;
  free = λ x e. ground arith;
  only = λ x e. ground arith;
  alone = refl;
  prev_inside = refl;
  next_inside = refl;
}

bin-HasPads : HasPads graph (bin_info 4)
bin-HasPads = record { src = λ w e. ground arith; sink = λ w e. ground arith }

bin-FitsBetween : FitsBetween graph (bin_info 4)
bin-FitsBetween = record { before = graph-Fits 2 4; behind = graph-Fits 4 3 }

add_elem_probe_cb_splices_example :
    let (r, t) =
      add_elem_probe_cb graph 6
        (bin_info 4)
        (pads_of plain ((6, add_elem_probe (bin_info 4)) ∷ [])) in
    (r ≡ probe_drop)
    × (t.world.shape ≡ spliced 2 (bin_info 4) plain)
    × (t.probes ≡ remove_probe 6 ((6, add_elem_probe (bin_info 4)) ∷ []))
    × (t.copies ≡ 0)
add_elem_probe_cb_splices_example =
    add_elem_probe_cb_splices graph graph-IsDocumented (bin_info 4) bin-HasPads bin-FitsBetween 6
      (pads_of plain ((6, add_elem_probe (bin_info 4)) ∷ [])) plain-IsSpliceable

-- The bin 4 still stands in its place when the bin 5 is to be put there.
abbrev occupied : View
occupied = record (spliced 2 (bin_info 4) plain) { parent = λ x. if x == 5 then 0 else 9 }

remove_elem_probe_cb_unsplices_example :
    let s = pads_of (spliced 2 (bin_info 4) plain) ((6, remove_elem_probe (bin_info 4)) ∷ []) in
    let (r, t) = remove_elem_probe_cb graph true 6 (bin_info 4) s in
    (r ≡ probe_drop)
    × (t.world.shape ≡ unspliced 2 (bin_info 4) (spliced 2 (bin_info 4) plain))
    × (t.probes ≡ remove_probe 6 ((6, remove_elem_probe (bin_info 4)) ∷ []))
    × (t.copies ≡ 0)
remove_elem_probe_cb_unsplices_example =
    remove_elem_probe_cb_unsplices graph graph-IsDocumented (bin_info 4) (graph-Fits 2 3) 6
      (pads_of (spliced 2 (bin_info 4) plain) ((6, remove_elem_probe (bin_info 4)) ∷ []))
      (spliced-IsSpliced (bin_info 4) plain plain-IsSpliceable 2)

remove_elem_probe_cb-add_elem_probe_cb_example :
    let t = (add_elem_probe_cb graph 6 (bin_info 4) (pads_of plain [])).1 in
    let u = (remove_elem_probe_cb graph true 7 (bin_info 4) t).1 in
    u.world.shape
    ≡ record plain { playing = spread 2 (update plain.parent 4 9) 4 false plain.playing }
remove_elem_probe_cb-add_elem_probe_cb_example =
    remove_elem_probe_cb-add_elem_probe_cb graph graph-IsDocumented (bin_info 4) bin-HasPads
      bin-FitsBetween (graph-Fits 2 3) 6 7 (pads_of plain []) plain-IsSpliceable
