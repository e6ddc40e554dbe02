-- ===== src/Frames/Changes/Reached.antt =====
-- The graphs that the events of a page lead to, in src/runtime/frame.rs.
use browserkit.Common.{string_eq}
use browserkit.Common.Assoc.{lookup}
use browserkit.Frames.Graph.{FrameGraph, new}
use browserkit.Frames.Links.{IsLinked}
use browserkit.Frames.Changes.{IsReached, start, more}
use browserkit.Frames.Changes.Links.{Change-IsLinked}
use browserkit.Frames.Changes.MainFrame.{IsMainLive, Change-IsMainLive}

-- In whatever order the page reports its frames and its child sessions come and go: a frame whose
-- parent has a record is among the children of that record, and the main frame, when there is one,
-- has a record.
pub IsReached-links : {g : FrameGraph} → IsReached g → IsLinked g.frames × IsMainLive g
unfolding IsLinked IsMainLive new lookup
IsReached-links (start main) = (λ id parent_id r p hr hp hq. cc, λ id h. cc)
IsReached-links (more reached change) =
    let (linked, live) = IsReached-links reached in
    (Change-IsLinked change linked, Change-IsMainLive change linked live)
