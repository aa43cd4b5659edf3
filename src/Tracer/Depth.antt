-- ===== src/Tracer/Depth.antt =====
-- The depth of calls: balanced calls and returns leave it as it was.
use tiny_binary_debugger.Base.{
  ℕ, ◌+◌, ◌^◌, ◌<◌, ◌≡◌, refl, ◌∙◌, ap, true, false, List, [], ◌∷◌, ◌++◌, length, length-append,
  arith, All,
}
use tiny_binary_debugger.Os.{Arch, x86_64, aarch64}
use tiny_binary_debugger.Text.{Text}
use tiny_binary_debugger.Text.Laws.{one_of-elim}
use tiny_binary_debugger.Tracer.Annotation.{is_call, is_return, return_mnemonics, next_depth}

-- No mnemonic is taken for a call and for a return.
pub is_return-not-is_call :
    (arch : Arch) (m : Text) → is_return arch m ≡ true → is_call arch m ≡ false
unfolding is_return is_call
is_return-not-is_call arch m h =
    one_of-elim (λ t. is_call arch t ≡ false) m (return_mnemonics arch) (each arch) h
  where
    each : (a : Arch) → All (λ t. is_call a t ≡ false) (return_mnemonics a)
    each x86_64 = (refl, (refl, tt))
    each aarch64 = (refl, (refl, (refl, tt)))

-- The depth after a run of instructions, given by their mnemonics.
unfoldable pub depth_after : Arch → List Text → ℕ → ℕ
depth_after arch [] depth = depth
depth_after arch (m ∷ ms) depth = depth_after arch ms (next_depth arch m depth)

pub depth_after-append :
    (arch : Arch) (ms ns : List Text) (depth : ℕ)
    → depth_after arch (ms ++ ns) depth ≡ depth_after arch ns (depth_after arch ms depth)
unfolding depth_after
depth_after-append arch [] ns depth = refl
depth_after-append arch (m ∷ ms) ns depth = depth_after-append arch ms ns (next_depth arch m depth)

-- Runs in which every call has its return.
pub data IsBalanced (arch : Arch) : List Text → Type 0 where
  finished : IsBalanced arch []
  plain :
      {ms : List Text} (m : Text)
      → is_call arch m ≡ false
      → is_return arch m ≡ false
      → IsBalanced arch ms
      → IsBalanced arch (m ∷ ms)
  nested :
      {body rest : List Text} (c r : Text)
      → is_call arch c ≡ true
      → is_return arch r ≡ true
      → IsBalanced arch body
      → IsBalanced arch rest
      → IsBalanced arch (c ∷ (body ++ (r ∷ rest)))

plain_depth :
    (arch : Arch) (m : Text) (depth : ℕ)
    → is_call arch m ≡ false
    → is_return arch m ≡ false
    → next_depth arch m depth ≡ depth
unfolding next_depth
plain_depth arch m depth c r = ground arith

call_depth :
    (arch : Arch) (m : Text) (depth : ℕ)
    → is_call arch m ≡ true
    → depth + 1 < 2 ^ 64
    → next_depth arch m depth ≡ depth + 1
unfolding next_depth
call_depth arch m depth c h = ground arith

return_depth :
    (arch : Arch) (m : Text) (depth : ℕ)
    → is_return arch m ≡ true
    → next_depth arch m (depth + 1) ≡ depth
unfolding next_depth
return_depth arch m depth r = ground (arith, is_return-not-is_call arch m r)

-- A balanced run ends at the depth at which it began, if the depth cannot reach 2 ^ 64 within it.
pub depth_after-balanced :
    (arch : Arch) {ms : List Text} (depth : ℕ)
    → depth + length ms < 2 ^ 64
    → IsBalanced arch ms
    → depth_after arch ms depth ≡ depth
unfolding depth_after
depth_after-balanced arch depth h finished = refl
depth_after-balanced arch depth h (plain {ms} m c r b) =
    ap (λ d. depth_after arch ms d) (plain_depth arch m depth c r)
    ∙ (depth_after-balanced arch depth (omega arith) b)
depth_after-balanced arch depth h (nested {body} {rest} c r is_c is_r b b') =
    let fits = length-append body (r ∷ rest) in
    ap (λ d. depth_after arch (body ++ (r ∷ rest)) d) (call_depth arch c depth is_c (omega arith))
    ∙ depth_after-append arch body (r ∷ rest) (depth + 1)
    ∙ ap (λ d. depth_after arch (r ∷ rest) d)
        (depth_after-balanced arch (depth + 1) (omega arith) b)
    ∙ ap (λ d. depth_after arch rest d) (return_depth arch r depth is_r)
    ∙ depth_after-balanced arch depth (omega arith) b'
