-- ===== src/Delta/Tombstones.antt =====
-- The counters of the overlay of src/delta.rs when a tombstone is laid or cleared, and in a step.
use orpheusgraph.Prelude.{
  ◌-◌, ◌≡◌, refl, sym, ◌∙◌, Bool, true, false, not, ◌&&◌, ◌||◌, String, List, [], ◌∷◌, count, arith,
  ◌==◌, string_eq, count-append, Bool-cases, Option-cases, inl, inr,
}
use orpheusgraph.HashSet.{
  contains, insert, remove, Distinct, contains-remove, remove-Distinct, count-remove, remove-absent,
}
use orpheusgraph.IndexMap.{IndexMap}
use orpheusgraph.Types.{NodeData}
use orpheusgraph.Accessor.{GraphAccessor, NeighborView}
use orpheusgraph.Delta.Defs.{Op, EdgeKey, key_eq, GraphDelta}
use orpheusgraph.Delta.Mutators.{
  edge_key, mask_each, unmask_each, skip_outgoing, skip_incoming, mask_incident_base_edges,
  unmask_incident_base_edges, clear_tombstone, upsert_node, drop_shadow, lay_tombstone, remove_node,
}
use orpheusgraph.Delta.Apply.{step}
use orpheusgraph.Delta.Masked.{IsConsistent, masked_by, masked_by-cons, masked_by-member}
use orpheusgraph.Delta.Counters.{
  mask_each-count, unmask_each-count, in_base, IsCounted, kill_incident-IsCounted,
  add_edge-IsCounted, remove_edge-IsCounted, drop_shadow-IsCounted, shadow_dropped,
}

module _ ⦃im : IndexMap String NodeData⦄ where
  module _ (base : GraphAccessor) where
    module _ (c : IsConsistent base) where
      no_edges :
          (name : String) (p q : NeighborView → Bool)
          → in_base base name ≡ false
          → (count p (base.outgoing_neighbors name) ≡ 0)
            × (count q (base.incoming_neighbors name) ≡ 0)
      no_edges name p q h = elim (Option-cases (base.get_node name)) [
        | inl e ↦ (rw (c.out_of_node name e), rw (c.into_node name e))
        | inr (v, e) ↦ cc
      ]

      masked-lay :
          (name : String) (d : GraphDelta)
          → contains d.removed_nodes name ≡ false
          → IsCounted base d
          → (mask_incident_base_edges base name d).masked_base_edge_count
            ≡ masked_by base (name ∷ d.removed_nodes) d.removed_edges
      unfolding mask_incident_base_edges
      masked-lay name d fresh h =
          let outs = base.outgoing_neighbors name in
          let n = mask_each (skip_outgoing d name) outs d.masked_base_edge_count in
          omega (
            arith,
            h.masked,
            mask_each-count (skip_outgoing d name) outs d.masked_base_edge_count,
            mask_each-count (skip_incoming d name) (base.incoming_neighbors name) n,
            masked_by-cons base c name d.removed_nodes fresh d.removed_edges h.nodes_distinct
                h.edges_distinct,
          )

      -- a tombstone on a name that the base does not know masks nothing
      masked-foreign :
          (name : String) (r : List String) (es : List EdgeKey)
          → contains r name ≡ false
          → in_base base name ≡ false
          → Distinct r
          → Distinct es
          → masked_by base (name ∷ r) es ≡ masked_by base r es
      masked-foreign name r es fresh b dr de =
          let none_there =
            no_edges name
              (λ nb. not (
                contains r nb.target_name
                || contains es (edge_key name nb.target_name nb.edge_kind)))
              (λ nb. not (
                nb.target_name == name
                || contains r nb.target_name
                || contains es (edge_key nb.target_name name nb.edge_kind)))
              b in
          omega (arith, masked_by-cons base c name r fresh es dr de, none_there.0, none_there.1)

      lay_tombstone-IsCounted :
          (name : String) (d : GraphDelta)
          → contains (im.keys d.added_nodes) name ≡ false
          → IsCounted base d
          → IsCounted base (lay_tombstone base name d)
      unfolding lay_tombstone insert contains
      lay_tombstone-IsCounted name d gone h = elim (Bool-cases (contains d.removed_nodes name)) [
        | inl r ↦ rw r (ground (arith, h))
        | inr r ↦ elim (Bool-cases (in_base base name)) [
          | inl b ↦
              rw (r, b)
                (unfold mask_incident_base_edges in
                  rw r (record {
                    nodes_distinct = (r, h.nodes_distinct);
                    edges_distinct = h.edges_distinct;
                    disjoint = λ k. ground (arith, h.disjoint k, string_eq.beq_iff name k);
                    tbh = ground (arith, h.tbh);
                    anb = h.anb;
                    masked = unfold mask_incident_base_edges in masked-lay name d r h;
                    live = h.live;
                  }))
          | inr b ↦
              rw (r, b)
                (rw r (record {
                  nodes_distinct = (r, h.nodes_distinct);
                  edges_distinct = h.edges_distinct;
                  disjoint = λ k. ground (arith, h.disjoint k, string_eq.beq_iff name k);
                  tbh = ground (arith, h.tbh);
                  anb = h.anb;
                  masked =
                      h.masked
                      ∙ sym (
                          masked-foreign name d.removed_nodes d.removed_edges r b h.nodes_distinct
                            h.edges_distinct);
                  live = h.live;
                }))
        ]
      ]

      masked-clear :
          (name : String) (d : GraphDelta)
          → contains d.removed_nodes name ≡ true
          → IsCounted base d
          → d.masked_base_edge_count
            ≡ masked_by base (name ∷ remove d.removed_nodes name) d.removed_edges
      masked-clear name d held h =
          h.masked
          ∙ masked_by-member base name d.removed_nodes d.removed_edges h.nodes_distinct held

      cleared :
          (name : String) (d : GraphDelta) → contains (remove d.removed_nodes name) name ≡ false
      cleared name d =
          ground (arith, contains-remove d.removed_nodes name name, string_eq.beq_iff name name)

      -- The counter never stops at 0 early: the recount before is the one after and what is taken off.
      masked-unlay :
          (name : String) (d d' : GraphDelta)
          → contains d.removed_nodes name ≡ true
          → IsCounted base d
          → d'.removed_nodes ≡ remove d.removed_nodes name
          → d'.removed_edges ≡ d.removed_edges
          → d'.masked_base_edge_count ≡ d.masked_base_edge_count
          → (unmask_incident_base_edges base name d').masked_base_edge_count
            ≡ masked_by base (remove d.removed_nodes name) d.removed_edges
      unfolding unmask_incident_base_edges
      masked-unlay name d d' held h en ee em =
          let r = remove d.removed_nodes name in
          let skip_out : NeighborView → Bool = λ nb.
            contains r nb.target_name
            || contains d.removed_edges (edge_key name nb.target_name nb.edge_kind) in
          let skip_in : NeighborView → Bool = λ nb.
            nb.target_name == name
            || contains r nb.target_name
            || contains d.removed_edges (edge_key nb.target_name name nb.edge_kind) in
          let outs = base.outgoing_neighbors name in
          let n = unmask_each skip_out outs d.masked_base_edge_count in
          rw (en, ee, em)
            (omega (
              arith,
              masked-clear name d held h,
              unmask_each-count skip_out outs d.masked_base_edge_count,
              unmask_each-count skip_in (base.incoming_neighbors name) n,
              masked_by-cons base c name r (cleared name d) d.removed_edges
                  (remove-Distinct d.removed_nodes name h.nodes_distinct) h.edges_distinct,
            ))

      clear_tombstone-IsCounted :
          (name : String) (d : GraphDelta)
          → IsCounted base d
          → IsCounted base (clear_tombstone base name d)
      unfolding clear_tombstone
      clear_tombstone-IsCounted name d h =
          let distinct = remove-Distinct d.removed_nodes name h.nodes_distinct in
          let apart : (k : String)
              → (contains (im.keys d.added_nodes) k && contains (remove d.removed_nodes name) k)
                ≡ false =
            λ k. ground (arith, h.disjoint k, contains-remove d.removed_nodes name k) in
          let hits = count-remove (in_base base) d.removed_nodes name h.nodes_distinct in
          elim (Bool-cases (contains d.removed_nodes name)) [
            | inl r ↦ elim (Bool-cases (in_base base name)) [
              | inl b ↦
                  rw (r, b)
                    (unfold unmask_incident_base_edges in
                      record {
                        nodes_distinct = distinct;
                        edges_distinct = h.edges_distinct;
                        disjoint = apart;
                        tbh = ground (arith, h.tbh, hits);
                        anb = h.anb;
                        masked =
                            unfold unmask_incident_base_edges in
                            masked-unlay name d
                              (record d {
                                removed_nodes = remove d.removed_nodes name;
                                tombstone_base_hits = d.tombstone_base_hits - 1;
                              })
                              r h refl refl refl;
                        live = h.live;
                      })
              | inr b ↦
                  rw (r, b)
                    (record {
                      nodes_distinct = distinct;
                      edges_distinct = h.edges_distinct;
                      disjoint = apart;
                      tbh = ground (arith, h.tbh, hits);
                      anb = h.anb;
                      masked =
                          masked-clear name d r h
                          ∙ masked-foreign name (remove d.removed_nodes name) d.removed_edges
                              (cleared name d) b distinct h.edges_distinct;
                      live = h.live;
                    })
            ]
            | inr r ↦
                rw (r, remove-absent d.removed_nodes name r)
                  (record {
                    nodes_distinct = h.nodes_distinct;
                    edges_distinct = h.edges_distinct;
                    disjoint = h.disjoint;
                    tbh = h.tbh;
                    anb = h.anb;
                    masked = h.masked;
                    live = h.live;
                  })
          ]

      clear_tombstone-removed :
          (name : String) (d : GraphDelta)
          → (clear_tombstone base name d).removed_nodes ≡ remove d.removed_nodes name
      unfolding clear_tombstone unmask_incident_base_edges
      clear_tombstone-removed name d = ground arith

      upsert_node-IsCounted :
          (nd : NodeData) (d : GraphDelta)
          → IsCounted base d
          → IsCounted base (upsert_node base nd d)
      unfolding upsert_node
      upsert_node-IsCounted nd d h =
          let d1 = clear_tombstone base nd.name d in
          let h1 = clear_tombstone-IsCounted nd.name d h in
          let keys = im.keys d1.added_nodes in
          record {
            nodes_distinct = h1.nodes_distinct;
            edges_distinct = h1.edges_distinct;
            disjoint = λ k. ground (
              arith,
              h1.disjoint k,
              im.is_some-get d1.added_nodes k,
              im.is_some-get (im.insert d1.added_nodes nd.name nd) k,
              im.get-insert d1.added_nodes nd.name nd k,
              string_eq.beq_iff nd.name k,
              cleared nd.name d,
              clear_tombstone-removed nd.name d,
            );
            tbh = h1.tbh;
            anb = rw im.keys-insert (
                ground (
                  arith,
                  h1.anb,
                  im.is_some-get d1.added_nodes nd.name,
                  count-append (λ k. not (in_base base k)) keys (nd.name ∷ []),
                ));
            masked = h1.masked;
            live = h1.live;
          }

      -- Every operation, validated or not, keeps the counters, the disjointness of shadows and
      -- tombstones, and the sets without repetition, over a base whose edges show at both ends.
      pub step-IsCounted :
          (op : Op) (d : GraphDelta) → IsCounted base d → IsCounted base (step base op d)
      unfolding step remove_node
      step-IsCounted (Op.upsert_node nd) d h = upsert_node-IsCounted nd d h
      step-IsCounted (Op.remove_node name) d h = kill_incident-IsCounted base name _ (
          lay_tombstone-IsCounted name (drop_shadow base name d) (shadow_dropped base name d)
            (drop_shadow-IsCounted base name d h))
      step-IsCounted (Op.add_edge from to edge) d h = add_edge-IsCounted base from to edge d h
      step-IsCounted (Op.remove_edge from to kind) d h = remove_edge-IsCounted base from to kind d h
