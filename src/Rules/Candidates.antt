-- ===== src/Rules/Candidates.antt =====
-- crates/unlinger-rules/src/lib.rs: `Analyzer::candidates`, the sessions that a process table may hold.
-- The walks of the graph answer within their fuel, so the default that stands for no answer is not met.
use unlinger.Prelude.{
  ℕ, ◌==◌, ltb, leb, Bool, true, false, ◌&&◌, ◌||◌, not, Option, none, some, List, [], ◌∷◌, ◌++◌,
  map, String, any, find, keep, is_none, contains, bytes, Map, insert, get, values, contains_key,
  sort, dedup, unwrap_or, if◌then◌else◌,
}
use unlinger.Core.Model.{ProcessRecord, pid_of}
use unlinger.Core.Fingerprint.{row_le}
use unlinger.Core.Graph.{ProcessGraph, ancestor_pids, descendant_pids}
use unlinger.Rules.Text.{bytes_eq}
use unlinger.Rules.Pack.{SignaturePack}
use unlinger.Rules.Matching.{
  is_browser_root, matches_controller, matches_recorder, pack_anchor_count,
}

pub record Candidate : Type 0 where
  pub pack : SignaturePack
  pub root_pid : ℕ
  pub controller_pid : Option ℕ
  pub browser_root_pids : List ℕ
  pub member_pids : List ℕ
  pub pack_anchor_count : ℕ

abbrev pub processes : ProcessGraph → List ProcessRecord
processes g = values g.processes

-- `graph.get(pid)`.
abbrev pub process_at : ProcessGraph → ℕ → Option ProcessRecord
process_at g pid = get pid g.processes

abbrev pub ancestors : ProcessGraph → ℕ → List ℕ
ancestors g pid = unwrap_or (ancestor_pids g pid) []

abbrev pub descendants : ProcessGraph → ℕ → List ℕ
descendants g pid = unwrap_or (descendant_pids g pid) []

abbrev pids : List ProcessRecord → List ℕ
pids = map pid_of

-- `text < text` of pack ids.
abbrev id_lt : String → String → Bool
id_lt a b = row_le (bytes a) (bytes b) && not (bytes_eq (bytes a) (bytes b))

abbrev replaces : Candidate → Option Candidate → Bool
replaces c none = true
replaces c (some existing) =
    ltb existing.pack_anchor_count c.pack_anchor_count
    || c.pack_anchor_count == existing.pack_anchor_count && id_lt c.pack.id existing.pack.id

unfoldable pub select_candidate : Map Candidate → Candidate → Map Candidate
unfolding insert get row_le bytes_eq
select_candidate selected c =
    if replaces c (get c.root_pid selected) then insert c.root_pid c selected else selected

joins : ProcessRecord → SignaturePack → ProcessRecord → Bool
unfolding matches_recorder
joins owner pack p =
    p.parent_pid == pid_of owner
    && p.uid == owner.uid
    && is_none p.tty_device
    && leb owner.identity.started_at_unix_micros p.identity.started_at_unix_micros
    && p.process_group_id == owner.process_group_id
    && matches_recorder p pack

in_group : ProcessGraph → ℕ → ℕ → Bool
in_group g group pid = elim (process_at g pid) [
  | none ↦ false
  | some browser ↦ not (browser.process_group_id == 0) && browser.process_group_id == group
]

unfoldable pub joined_recorder_pids : ProcessGraph → ℕ → List ℕ → SignaturePack → List ℕ
unfolding joins in_group get
joined_recorder_pids g controller_pid browser_root_pids pack = elim (process_at g controller_pid) [
  | none ↦ []
  | some owner ↦
      if owner.process_group_id == 0
        || not (any (in_group g owner.process_group_id) browser_root_pids)
      then []
      else pids (keep (joins owner pack) (processes g))
]

-- The browsers of the graph that look like this pack's, and the controllers, in the order of pids.
unfoldable pub root_pids : ProcessGraph → SignaturePack → List ℕ
unfolding is_browser_root
root_pids g pack = pids (keep (λ p. is_browser_root p pack) (processes g))

unfoldable pub controller_pids : ProcessGraph → SignaturePack → List ℕ
unfolding root_pids matches_controller
controller_pids g pack = pids (
    keep (λ p. not (contains (root_pids g pack) (pid_of p)) && matches_controller p pack)
      (processes g))

unfoldable pub nearest_controller : ProcessGraph → List ℕ → ℕ → Option ℕ
unfolding ancestor_pids
nearest_controller g controllers pid = find (contains controllers) (ancestors g pid)

abbrev pub anchors_at : ProcessGraph → SignaturePack → ℕ → ℕ
anchors_at g pack pid = elim (process_at g pid) [ none ↦ 0 | some p ↦ pack_anchor_count p pack ]

-- The loop that gives each browser to its nearest controller, or keeps it as unowned.
abbrev assign :
    ProcessGraph → SignaturePack → Option ℕ → ℕ → Map (List ℕ) × List ℕ → Map (List ℕ) × List ℕ
assign g pack (some owner) pid (owned, unowned) =
    (insert owner (unwrap_or (get owner owned) [] ++ pid ∷ []) owned, unowned)
assign g pack none pid (owned, unowned) =
    if ltb 0 (anchors_at g pack pid) then (owned, unowned ++ pid ∷ []) else (owned, unowned)

unfoldable pub assign_browsers :
    ProcessGraph → SignaturePack → List ℕ → Map (List ℕ) × List ℕ → List ℕ → Map (List ℕ) × List ℕ
unfolding nearest_controller insert get pack_anchor_count
assign_browsers g pack controllers acc [] = acc
assign_browsers g pack controllers acc (pid ∷ rest) =
    assign_browsers g pack controllers
      (assign g pack (nearest_controller g controllers pid) pid acc) rest

unfoldable pub all_descendants : ProcessGraph → List ℕ → List ℕ
unfolding descendant_pids
all_descendants g [] = []
all_descendants g (pid ∷ rest) = descendants g pid ++ all_descendants g rest

-- The candidate of a controller with browsers.
unfoldable pub controlled_candidate : ProcessGraph → SignaturePack → ℕ → List ℕ → Candidate
unfolding all_descendants joined_recorder_pids sort dedup pack_anchor_count get
controlled_candidate g pack owner browsers =
    let sorted = sort browsers in
    record {
      pack = pack;
      root_pid = owner;
      controller_pid = some owner;
      browser_root_pids = sorted;
      member_pids =
          dedup
            (sort (owner ∷ (all_descendants g sorted ++ joined_recorder_pids g owner sorted pack)));
      pack_anchor_count = anchors_at g pack owner;
    }

-- The candidate of a controller without browsers.
abbrev pub idle_candidate : SignaturePack → ℕ → ProcessRecord → Candidate
idle_candidate pack owner p = record {
  pack = pack;
  root_pid = owner;
  controller_pid = some owner;
  browser_root_pids = [];
  member_pids = owner ∷ [];
  pack_anchor_count = pack_anchor_count p pack;
}

-- The candidate of a browser that no controller owns.
abbrev pub unowned_candidate : ProcessGraph → SignaturePack → ℕ → ProcessRecord → Candidate
unowned_candidate g pack pid p = record {
  pack = pack;
  root_pid = pid;
  controller_pid = none;
  browser_root_pids = pid ∷ [];
  member_pids = descendants g pid;
  pack_anchor_count = pack_anchor_count p pack;
}

-- The three loops that select candidates.
unfoldable pub select_controlled :
    ProcessGraph → SignaturePack → Map Candidate → Map (List ℕ) → Map Candidate
unfolding select_candidate controlled_candidate
select_controlled g pack selected [] = selected
select_controlled g pack selected ((owner, browsers) ∷ rest) =
    select_controlled g pack
      (select_candidate selected (controlled_candidate g pack owner browsers)) rest

abbrev select_if : Map Candidate → Option Candidate → Map Candidate
select_if selected none = selected
select_if selected (some c) = select_candidate selected c

abbrev map_some : (ProcessRecord → Candidate) → Option ProcessRecord → Option Candidate
map_some f none = none
map_some f (some p) = some (f p)

unfoldable pub select_idle : ProcessGraph → SignaturePack → Map Candidate → List ℕ → Map Candidate
unfolding select_candidate get pack_anchor_count
select_idle g pack selected [] = selected
select_idle g pack selected (owner ∷ rest) =
    select_idle g pack
      (select_if selected (map_some (idle_candidate pack owner) (process_at g owner))) rest

unfoldable pub select_unowned :
    ProcessGraph → SignaturePack → Map Candidate → List ℕ → Map Candidate
unfolding select_candidate get pack_anchor_count descendant_pids
select_unowned g pack selected [] = selected
select_unowned g pack selected (pid ∷ rest) =
    select_unowned g pack
      (select_if selected (map_some (unowned_candidate g pack pid) (process_at g pid))) rest

-- The body of the loop over the packs.
unfoldable pub select_pack : ProcessGraph → Map Candidate → SignaturePack → Map Candidate
unfolding assign_browsers root_pids controller_pids select_controlled select_idle select_unowned
select_pack g selected pack =
    let controllers = controller_pids g pack in
    let assigned = assign_browsers g pack controllers ([], []) (root_pids g pack) in
    let idle = keep (λ pid. not (contains_key pid assigned.0)) controllers in
    select_unowned g pack (select_idle g pack (select_controlled g pack selected assigned.0) idle)
      assigned.1

unfoldable pub select_packs : ProcessGraph → Map Candidate → List SignaturePack → Map Candidate
unfolding select_pack
select_packs g selected [] = selected
select_packs g selected (pack ∷ packs) = select_packs g (select_pack g selected pack) packs

unfoldable pub candidates : List SignaturePack → ProcessGraph → List Candidate
unfolding select_packs
candidates packs g = values (select_packs g [] packs)
