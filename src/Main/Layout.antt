-- ===== src/Main/Layout.antt =====
-- How `main` of src/deepstream_fpfilter_app.c puts its elements into the pipeline and links them.
use deepstream_fpfilter.Prelude.{
  ℕ, ◌≡◌, ◌≢◌, refl, sym, ◌∙◌, Bool, true, false, not, Option-cases, Bool-cases, none, some, inl,
  inr, List, [], ◌∷◌, ◌++◌, ◌==◌, if◌then◌else◌, arith, All-map, All-insert, All-remove, Holds,
  Holds-if,
}
use deepstream_fpfilter.Pipeline.Gst.{
  Gst, View, IsDocumented, spread, update, after_filter_buffer_probe,
}
use deepstream_fpfilter.Pipeline.Views.{bin_add_to, set_state_of}
use deepstream_fpfilter.Pipeline.Making.{IsMaking}
use deepstream_fpfilter.Pipeline.Many.{
  bin_add_many, link_from, chain, inside, IsLoose, AreLoose, AreLoose-remove, AreLoose-insert,
  bin_add_many-view, link_from_done, inside_other,
}
use deepstream_fpfilter.Main.Start.{Elements, add_elements, link_source, stream, link_and_play}
use deepstream_fpfilter.Main.Elements.{in_order, all_elements}

-- The elements that are added first, in the order of the call.
abbrev pub added_first : Elements → ℕ → List ℕ
added_first e sink =
    e.source ∷ e.streammux ∷ e.primary_detector ∷ e.nvosd ∷ e.nvvidconv1 ∷ e.nvvidconv2
    ∷ e.nvvidconv3 ∷ sink ∷ []

-- The bins once all elements are in the pipeline.
abbrev pub placed : Elements → ℕ → Bool → ℕ → (ℕ → ℕ) → ℕ → ℕ
placed e sink on bin parent =
    if on
    then update (inside e.pipeline (added_first e sink) parent) bin e.pipeline
    else inside e.pipeline (added_first e sink) parent

-- The links once the elements are linked in the order of the stream.
abbrev pub linked_up : Elements → ℕ → Bool → ℕ → (ℕ → ℕ) → ℕ → ℕ
linked_up e sink on bin next =
    chain e.streammux (in_order e sink on bin) (update next e.source e.streammux)

-- The order of the calls in place of that of the stream.
osd_first :
    (v : View) (e : Elements) (sink : ℕ)
    → AreLoose v (
        e.source ∷ e.streammux ∷ e.primary_detector ∷ e.nvvidconv1 ∷ e.nvvidconv2 ∷ e.nvosd
        ∷ e.nvvidconv3 ∷ sink ∷ [])
    → AreLoose v (added_first e sink)
osd_first v e sink l =
    let front = e.source ∷ e.streammux ∷ e.primary_detector ∷ [] in
    let (loose, apart, rest) =
      AreLoose-remove v (front ++ (e.nvvidconv1 ∷ e.nvvidconv2 ∷ [])) (e.nvvidconv3 ∷ sink ∷ [])
        e.nvosd l in
    AreLoose-insert v front (e.nvvidconv1 ∷ e.nvvidconv2 ∷ e.nvvidconv3 ∷ sink ∷ []) e.nvosd loose
      apart rest

module _ (G : Gst) (L : IsDocumented G) where
  add_first-view :
      (e : Elements) (sink : ℕ) (w : G.World) (v : View)
      → G.view w ≡ v
      → AreLoose v (added_first e sink)
      → G.view (bin_add_many G e.pipeline (added_first e sink) w)
        ≡ record v { parent = inside e.pipeline (added_first e sink) v.parent }
  add_first-view e sink w v at_v l =
      bin_add_many-view G L e.pipeline (added_first e sink) w v at_v
        (All-map {P = IsLoose v} {Q = λ x. (x ≢ 0) × (v.parent x ≡ 0)} (λ x i. (i.some, i.alone))
          (added_first e sink) l.each)
        l.distinct

  pub add_elements-view :
      (e : Elements) (sink : ℕ) (on : Bool) (bin : ℕ) (w : G.World)
      → AreLoose (G.view w) (all_elements e sink on bin)
      → G.view (add_elements G e sink on bin w)
        ≡ record (G.view w) { parent = placed e sink on bin (G.view w).parent }
  unfolding add_elements
  add_elements-view e sink false bin w l =
      let (_, _, others) = AreLoose-remove (G.view w) [] _ e.pipeline l in
      add_first-view e sink w (G.view w) refl (osd_first (G.view w) e sink others)
  add_elements-view e sink true bin w l =
      let v = G.view w in
      let (_, _, others) = AreLoose-remove v [] _ e.pipeline l in
      let front = e.source ∷ e.streammux ∷ e.primary_detector ∷ [] in
      let (loose, apart, rest) =
        AreLoose-remove v (front ++ (e.nvvidconv1 ∷ []))
          (e.nvvidconv2 ∷ e.nvosd ∷ e.nvvidconv3 ∷ sink ∷ []) bin others in
      let (osd_ne, apart') =
        All-remove (λ x. x ≢ bin) (front ++ (e.nvvidconv1 ∷ e.nvvidconv2 ∷ []))
          (e.nvvidconv3 ∷ sink ∷ []) apart in
      let outside =
        All-insert (λ x. x ≢ bin) front (e.nvvidconv1 ∷ e.nvvidconv2 ∷ e.nvvidconv3 ∷ sink ∷ [])
          osd_ne apart' in
      bin_add_to G L (bin_add_many G e.pipeline (added_first e sink) w) _
        (add_first-view e sink w v refl (osd_first v e sink rest)) e.pipeline bin
        (inside_other e.pipeline (added_first e sink) v.parent bin (
            All-map {P = λ x. x ≢ bin} {Q = λ x. bin ≢ x} (λ x ne g. ne (sym g))
              (added_first e sink) outside)
          ∙ loose.alone)

  module _ (N : IsMaking G) where
    -- Where the two pads can be linked, the source bin leads to the muxer.
    pub link_source-view :
        (e : Elements) (w : G.World) (v : View)
        → G.view w ≡ v
        → Holds
            (λ w'. G.view w' ≡ record v { next = update v.next e.source e.streammux })
            (link_source G e w)
    unfolding link_source
    link_source-view e w v at_v =
        let (sinkpad, w₁) = G.get_request_pad e.streammux "sink_0" w in
        let srcpad = G.get_static_pad e.source "src" w₁ in
        let (linked, w₂) = G.pad_link srcpad sinkpad w₁ in
        let P : G.World → Type 0 =
          λ w'. G.view w' ≡ record v { next = update v.next e.source e.streammux } in
        Holds-if P (sinkpad == 0) _ (λ has_sink.
          Holds-if P (srcpad == 0) (if linked then some w₂ else none) (λ has_src.
            elim (Bool-cases linked) [
              | inl fits ↦
                  let to_mux =
                    N.request_pad-owner e.streammux "sink_0" w (ground (arith, has_sink)) in
                  let from_source =
                    N.static_pad-owner e.source "src" w₁ (ground (arith, has_src)) in
                  let at₁ = N.request-view e.streammux "sink_0" w ∙ at_v in
                  rw fits
                    (rw (fits, to_mux, from_source, at₁) at (N.pad_link-view srcpad sinkpad w₁))
              | inr unfit ↦ rw unfit tt
            ]))

    -- The links and the state of the pipeline when it plays.
    pub link_and_play-view :
        (e : Elements) (sink : ℕ) (on : Bool) (bin : ℕ) (w : G.World) (v : View) (parent : ℕ → ℕ)
        → AreLoose v (all_elements e sink on bin)
        → G.view w ≡ record v { parent = parent }
        → Holds
            (λ w'. G.view w' ≡ record {
              next = linked_up e sink on bin v.next;
              parent = parent;
              playing = spread G.depth parent e.pipeline true v.playing;
            })
            (link_and_play G e sink on bin w)
    unfolding link_and_play
    link_and_play-view e sink on bin w v parent l at_v =
        let P : G.World → Type 0 = λ w'. G.view w' ≡ record {
          next = linked_up e sink on bin v.next;
          parent = parent;
          playing = spread G.depth parent e.pipeline true v.playing;
        } in
        elim (Option-cases (link_source G e w)) [
          | inl none_linked ↦ rw (link_and_play, none_linked) tt
          | inr (w₁, source_linked) ↦
              let at₁ = rw source_linked at (link_source-view e w _ at_v) in
              let (_, _, others) = AreLoose-remove v [] _ e.pipeline l in
              let (linked, w₂) = link_from G e.streammux (stream e sink on bin) w₁ in
              let pad = G.get_static_pad e.nvvidconv2 "sink" w₂ in
              let w₃ = G.connect pad after_filter_buffer_probe w₂ in
              rw (link_and_play, source_linked)
                (Holds-if P (not linked) _ (λ ok.
                  let at₂ =
                    link_from_done G L e.streammux (stream e sink on bin) w₁ _ at₁
                      (All-map (λ x i. i.some) (stream e sink on bin) others.each.1.1)
                      (ground (arith, ok)) in
                  Holds-if P (pad == 0) (some (G.set_state e.pipeline true w₃)) (λ _.
                    set_state_of G L w₃ _ (N.connect-view pad after_filter_buffer_probe w₂ ∙ at₂)
                      e.pipeline true)))
        ]
