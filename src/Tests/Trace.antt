-- ===== src/Tests/Trace.antt =====
-- Traces in the sample worktree.
use xgraph.Prelude.{◌≡◌, refl, [], ◌∷◌, none}
use xgraph.Indexes.Edges.{callees_of}
use xgraph.Indexes.State.{call_edge_count, total}
use xgraph.Handlers.Trace.{
  TraceParams, trace, path, forward, visit, climb, reconstruct, depth_limit,
}
use xgraph.Handlers.Trace.Shortest.{Answers, trace_shortest}
use xgraph.Tests.Samples.{two_files, run, parse_line_id, main_id}

abbrev down : TraceParams
down = record { from = main_id; to = parse_line_id; max_depth = none }

traced : trace two_files down ≡ path (main_id ∷ parse_line_id ∷ []) 1
unfolding run trace forward visit climb reconstruct depth_limit callees_of call_edge_count total
traced = refl

trace_shortest_example :
    Answers two_files main_id parse_line_id (depth_limit none) (trace two_files down)
trace_shortest_example = trace_shortest two_files down
