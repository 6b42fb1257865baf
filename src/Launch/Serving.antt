-- ===== src/Launch/Serving.antt =====
-- The kernel that `main` starts, behind any requests.
use xeus_cpp.Base.{ℕ, ◌≡◌, ap, ◌∙◌, false, List, ◌∷◌, ◌++◌, Bytes, length, some}
use xeus_cpp.World.{World}
use xeus_cpp.Kernel.{Kernel, cout_buffer, cerr_buffer}
use xeus_cpp.Kernel.Start.{initial}
use xeus_cpp.Kernel.Session.{Reaches, Kept, PutBy, Reaches-Served}
use xeus_cpp.Launch.{Xeus, Host, main, new_process}
use xeus_cpp.Launch.Order.{main-Launched}

-- The preambles are those of a new kernel, each output stream has the kernel's buffer or one that a code has left there,
-- and `n` replies were sent.
pub record Serves (host : Host) (n : ℕ) {j : Kernel} (k : Kernel) (r : Reaches j n k) : Type 0 where
  pub preambles : k.preambles ≡ initial host.writefile host.xassist
  pub cout : Kept (PutBy (λ p. p.new_cout) r) cout_buffer k.cout
  pub cerr : Kept (PutBy (λ p. p.new_cerr) r) cerr_buffer k.cerr
  pub replies : length k.replies ≡ n

-- If `main` is not asked for the version and the name of the program is left among the arguments: the kernel that it
-- makes, whatever codes it is asked to execute, has the preambles and magics of a new one, has sent exactly one reply for
-- each request that returned, and has behind each output stream its own buffer for it, or one that one of the codes,
-- which no preamble took and which was not executed silently, has left there.
pub main-Serves :
    (xeus : Xeus) (host : Host) (argv : List Bytes) (terminal : World) (file_name name : Bytes)
    (args : List Bytes) (n : ℕ) (k k' : Kernel)
    → xeus.should_print_version argv ≡ false
    → xeus.extract_filename argv ≡ (file_name, name ∷ args)
    → (main xeus host argv (new_process terminal)).1.kernel ≡ some k
    → (r : Reaches k n k') → Serves host n k' r
main-Serves xeus host argv terminal file_name name args n k k' v e made r =
    let launched = (main-Launched xeus host argv terminal file_name name args v e).1 in
    let (j, given, preambles, cout, cerr, replies, text) = launched.kernel in
    let same : k ≡ j = cc in
    let h = Reaches-Served k r in
    record {
      preambles = h.preambles ∙ ap (λ (i : Kernel). i.preambles) same ∙ preambles;
      cout = rw⁻¹ (ap (λ (i : Kernel). i.cout) same ∙ cout) h.cout;
      cerr = rw⁻¹ (ap (λ (i : Kernel). i.cerr) same ∙ cerr) h.cerr;
      replies =
          let (more, extended, counted) = h.replies in
          ap length
            (extended ∙ ap (λ rs. rs ++ more) (ap (λ (i : Kernel). i.replies) same ∙ replies))
          ∙ counted;
    }
