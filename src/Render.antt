-- ===== src/Render.antt =====
-- The text user interface's renderers, as far as they compute: cui/sliding_window_renderer.c
-- and cui/whole_space_renderer.c.
pub mod Queue
pub mod SlidingWindow
pub mod WholeSpace
