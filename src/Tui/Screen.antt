-- ===== src/Tui/Screen.antt =====
-- The parts of ratatui that the drawing of src/tui.rs builds its frames from. They are data here:
-- a frame is the list of the widgets that were drawn, each with its area.
use tiny_binary_debugger.Base.{
  ℕ, Bool, false, Option, none, some, List, get_elem?, Outcome, done, panicked,
}
use tiny_binary_debugger.Text.{Text}

pub data Color : Type 0 where
  black white gray dark_gray red green yellow blue magenta cyan : Color

-- `Style`: what is not set is left as it is on the screen.
pub record Style : Type 0 where
  pub fg : Option Color
  pub bg : Option Color
  pub bold : Bool
  pub slow_blink : Bool

abbrev pub plain : Style
plain = record { fg = none; bg = none; bold = false; slow_blink = false }

-- `Style::default().fg(color)`
abbrev pub colored : Color → Style
colored color = record plain { fg = some color }

pub record Span : Type 0 where
  pub content : Text
  pub style : Style

-- `Span::styled` and `Span::raw`
abbrev pub styled : Text → Style → Span
styled text style = record { content = text; style = style }

abbrev pub raw : Text → Span
raw text = styled text plain

abbrev pub Line : Type 0
Line = List Span

pub data Direction : Type 0 where
  vertical horizontal : Direction

pub data Constraint : Type 0 where
  length : ℕ → Constraint
  at_least : ℕ → Constraint
  percentage : ℕ → Constraint

pub record Rect : Type 0 where
  pub x : ℕ
  pub y : ℕ
  pub width : ℕ
  pub height : ℕ

-- A block with all four borders; without a title the title is empty.
pub record Block : Type 0 where
  pub title : Text
  pub border_style : Style
  pub style : Style

abbrev pub framed : Text → Block
framed title = record { title = title; border_style = colored dark_gray; style = plain }

pub data Widget : Type 0 where
  paragraph : List Line → Style → Block → Widget
  -- the items, the block, the style and the symbol of the selected item, and its index
  list : List Line → Block → Style → Text → Option ℕ → Widget
  clear : Widget

abbrev pub Drawn : Type 0
Drawn = Widget × Rect

-- `Layout::split`, and the selected item of a list after `render_stateful_widget` has drawn it: of
-- the number of the items and of the selection before.
pub record Ratatui : Type 0 where
  pub split : Direction → List Constraint → Rect → List Rect
  pub list_selected : ℕ → Option ℕ → Option ℕ

-- An index into a slice, which panics out of range.
or_panic {ℓ} : {A : Type ℓ} → Option A → Outcome A
or_panic none = panicked
or_panic (some a) = done a

unfoldable pub index {ℓ} : {A : Type ℓ} → List A → ℕ → Outcome A
unfolding or_panic
index xs i = or_panic (get_elem? xs i)
