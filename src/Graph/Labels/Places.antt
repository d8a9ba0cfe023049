-- ===== src/Graph/Labels/Places.antt =====
-- Where the text that follows a graph is.
use hk_rtos.Base.{ℕ, ◌+◌, ◌-◌, ◌*◌, ◌≤◌, ◌<◌, ◌≡◌, arith}
use hk_rtos.Graph.{GraphConfig}
use hk_rtos.Graph.Points.{Fits}
use hk_rtos.Graph.Labels.{newest, follow_x, follow_y}

newest-lt : (c : GraphConfig) → Fits c → c.cursor_x < c.width → newest c < c.width
unfolding newest
newest-lt c f h = let s = f.some_width in let r = f.right in ground arith

-- The text that follows a graph that fits lies within it: above or below the newest point, if that
-- point is on the graph and the graph is at least 22 pixels high, and between its left and right
-- edge, if the text is not wider than the graph.
pub follow_within :
    (printed : ℕ) (c : GraphConfig)
    → Fits c
    → c.cursor_x < c.width
    → printed ≤ 16
    → printed * 6 ≤ c.width
    → 22 ≤ c.height
    → c.y ≤ c.history (newest c)
    → c.history (newest c) ≤ c.y + c.height
    → ((c.x ≤ follow_x printed c) × (follow_x printed c + printed * 6 ≤ c.x + c.width))
      × ((c.y ≤ follow_y c) × (follow_y c + 7 ≤ c.y + c.height))
unfolding follow_x follow_y
follow_within printed c f h short narrow high above below =
    let r = f.right in
    let b = f.bottom in
    let i = newest-lt c f h in ((ground arith, ground arith), (ground arith, ground arith))

-- A text that would begin left of the screen is put at the right edge of the graph: the test with the
-- left edge comes after the subtraction in u16.
pub follow_wraps :
    (printed : ℕ) (c : GraphConfig)
    → Fits c
    → c.cursor_x < c.width
    → printed ≤ 16
    → printed * 6 ≤ c.width
    → c.x + newest c < printed * 3
    → follow_x printed c ≡ c.x + c.width - printed * 6
unfolding follow_x
follow_wraps printed c f h short narrow left =
    let r = f.right in let i = newest-lt c f h in ground arith
