-- ===== src/Dump/Descriptors.antt =====
-- `GenerateDump`: which ends of its two pipes the parent leaves open, and what its result means.
use native_crash2java.Base.{
  zero, suc, ℕ, ◌≡◌, refl, Bool, true, false, List, Option, none, some, arith, ◌⊎◌,
}
use native_crash2java.Dump.{
  ParentWorld, Outcome, WholeCallback, no_pipes, open_pipes, generate_dump, finish_dump,
  child_success,
}

-- If the clone succeeds, every end of both pipes is closed when `GenerateDump` returns.
pub generate_dump-closes :
    (whole : Option WholeCallback) (callback : Option (Bool → Bool)) (w : ParentWorld)
    (child : Option (ℕ × List ℕ)) (log : List ℕ) (o : Outcome)
    → w.clone_ok ≡ true
    → generate_dump whole callback w child log ≡ some o
    → o.pipes ≡ no_pipes
unfolding generate_dump finish_dump open_pipes
generate_dump-closes whole callback w child log o ok e = ground arith

-- If the clone fails after both pipes were opened, both ends of the pipe of the report stay open.
pub generate_dump-leaks :
    (whole : Option WholeCallback) (callback : Option (Bool → Bool)) (w : ParentWorld)
    (child : Option (ℕ × List ℕ)) (log : List ℕ)
    → w.out_of_process ≡ false
    → w.stack_allocated ≡ true
    → w.log_pipe_ok ≡ true
    → w.clone_ok ≡ false
    → (o : Outcome) × (generate_dump whole callback w child log ≡ some o)
      × (o.pipes.log_read ≡ true)
      × (o.pipes.log_write ≡ true)
      × (o.result ≡ false)
unfolding generate_dump open_pipes
generate_dump-leaks whole callback w child log a b c d = (
  record {
    result = false;
    delivered = none;
    pipes = record (open_pipes w) { fdes_read = false; fdes_write = false };
  },
  rw (a, b, d) refl,
  c,
  c,
  refl,
)

-- The callback is called only if `clone` and `waitpid` succeeded and the child exited with status 0, and
-- `GenerateDump` in the process succeeds only then.
pub generate_dump-success :
    (whole : Option WholeCallback) (callback : Option (Bool → Bool)) (w : ParentWorld)
    (child : Option (ℕ × List ℕ)) (log : List ℕ) (o : Outcome)
    → w.out_of_process ≡ false
    → generate_dump whole callback w child log ≡ some o
    → ((o.result ≡ true) ⊎ ((args : List ℕ × List ℕ) × (o.delivered ≡ some args)))
    → (w.clone_ok ≡ true) × (w.wait_ok ≡ true) × ((pipe : List ℕ) × (child ≡ some (0, pipe)))
unfolding generate_dump finish_dump child_success
generate_dump-success whole callback w none log o inside e s = absurd (ground arith)
generate_dump-success whole callback w (some (zero, pipe)) log o inside e s =
    (ground arith, ground arith, (pipe, refl))
generate_dump-success whole callback w (some (suc status, pipe)) log o inside e s =
    absurd (ground arith)
