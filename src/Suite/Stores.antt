-- ===== src/Suite/Stores.antt =====
-- The tests of src/tracer/trace.rs, all of them on `is_store_mnemonic`.
use tiny_binary_debugger.Base.{refl, not, [], ◌∷◌, All}
use tiny_binary_debugger.Suite.{Test, Passes, assert}
use tiny_binary_debugger.Text.{codes}
use tiny_binary_debugger.Tracer.Memory.{is_store_mnemonic}

abbrev store_str : Test
store_str = assert (is_store_mnemonic (codes "str"))

abbrev store_stp : Test
store_stp = assert (is_store_mnemonic (codes "stp"))

abbrev store_stur : Test
store_stur = assert (is_store_mnemonic (codes "stur"))

abbrev store_stlr : Test
store_stlr = assert (is_store_mnemonic (codes "stlr"))

abbrev store_stxr : Test
store_stxr = assert (is_store_mnemonic (codes "stxr"))

abbrev store_strb : Test
store_strb = assert (is_store_mnemonic (codes "strb"))

abbrev store_strh : Test
store_strh = assert (is_store_mnemonic (codes "strh"))

abbrev store_stlxr : Test
store_stlxr = assert (is_store_mnemonic (codes "stlxr"))

abbrev store_sttr : Test
store_sttr = assert (is_store_mnemonic (codes "sttr"))

abbrev store_stnp : Test
store_stnp = assert (is_store_mnemonic (codes "stnp"))

abbrev store_push : Test
store_push = assert (is_store_mnemonic (codes "push"))

abbrev store_pushq : Test
store_pushq = assert (is_store_mnemonic (codes "pushq"))

abbrev not_store_mov : Test
not_store_mov = assert (not (is_store_mnemonic (codes "mov")))

abbrev not_store_add : Test
not_store_add = assert (not (is_store_mnemonic (codes "add")))

abbrev not_store_sub : Test
not_store_sub = assert (not (is_store_mnemonic (codes "sub")))

abbrev not_store_ldr : Test
not_store_ldr = assert (not (is_store_mnemonic (codes "ldr")))

abbrev not_store_ldp : Test
not_store_ldp = assert (not (is_store_mnemonic (codes "ldp")))

abbrev not_store_nop : Test
not_store_nop = assert (not (is_store_mnemonic (codes "nop")))

abbrev not_store_ret : Test
not_store_ret = assert (not (is_store_mnemonic (codes "ret")))

abbrev not_store_bl : Test
not_store_bl = assert (not (is_store_mnemonic (codes "bl")))

abbrev not_store_b : Test
not_store_b = assert (not (is_store_mnemonic (codes "b")))

abbrev not_store_pop : Test
not_store_pop = assert (not (is_store_mnemonic (codes "pop")))

abbrev not_store_svc : Test
not_store_svc = assert (not (is_store_mnemonic (codes "svc")))

abbrev not_store_empty : Test
not_store_empty = assert (not (is_store_mnemonic (codes "")))

abbrev not_store_single_s : Test
not_store_single_s = assert (not (is_store_mnemonic (codes "s")))

All-Passes : All Passes (
    store_str ∷ store_stp ∷ store_stur ∷ store_stlr ∷ store_stxr ∷ store_strb ∷ store_strh
    ∷ store_stlxr ∷ store_sttr ∷ store_stnp ∷ store_push ∷ store_pushq ∷ not_store_mov
    ∷ not_store_add ∷ not_store_sub ∷ not_store_ldr ∷ not_store_ldp ∷ not_store_nop ∷ not_store_ret
    ∷ not_store_bl ∷ not_store_b ∷ not_store_pop ∷ not_store_svc ∷ not_store_empty
    ∷ not_store_single_s ∷ [])
unfolding is_store_mnemonic
All-Passes = (
  refl,
  (
    refl,
    (
      refl,
      (
        refl,
        (
          refl,
          (
            refl,
            (
              refl,
              (
                refl,
                (
                  refl,
                  (
                    refl,
                    (
                      refl,
                      (
                        refl,
                        (
                          refl,
                          (
                            refl,
                            (
                              refl,
                              (
                                refl,
                                (
                                  refl,
                                  (
                                    refl,
                                    (refl, (refl, (refl, (refl, (refl, (refl, (refl, tt))))))),
                                  ),
                                ),
                              ),
                            ),
                          ),
                        ),
                      ),
                    ),
                  ),
                ),
              ),
            ),
          ),
        ),
      ),
    ),
  ),
)
