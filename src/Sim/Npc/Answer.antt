-- ===== src/Sim/Npc/Answer.antt =====
-- What the calls of the core keep of the host: bytes stay bytes.
use riscv64_cpu.Base.{[], ◌∷◌, List, ℕ, leb, ◌<◌, ◌+◌, bit_and, ◌==◌, arith}
use riscv64_cpu.Base.Bytes.{Mem, IsBytes, store_le-IsBytes}
use riscv64_cpu.Base.Run.Ensures.{
  Ensures, Ensures->>=, Ensures-if, Ensures-any, value, aborts, faults,
}
use riscv64_cpu.Sim.Config.{Config}
use riscv64_cpu.Sim.State.{Host}
use riscv64_cpu.Sim.Memory.{assign, host_write, pmem_write, guest_to_host}
use riscv64_cpu.Sim.Dpi.{
  dpi_mem_write, dpi_mem_read, dpi_instr_mem_read, dpi_ebreak, dpi_read_regfile, dpi_read_csrfile,
  uart_base, in_dram,
}
use riscv64_cpu.Sim.Difftest.{Reference}
use riscv64_cpu.Sim.Npc.{
  Dut, Eval, answer, settled, instr_mem_read, mem_read, mem_write, ebreak, read_regfile,
  read_csrfile,
}
use riscv64_cpu.Base.Bits.{bit_and_mask}

abbrev pub AllBytes : List ℕ → Type 0
AllBytes [] = Unit {0}
AllBytes (b ∷ bs) = (b < 256) × AllBytes bs

-- Every cell of the memory is a byte, and so is every character of the console.
pub record IsHost (h : Host) : Type 0 where
  pub pmem : IsBytes h.pmem
  pub console : AllBytes h.console

bit_and_byte : (v : ℕ) → bit_and v 0xff < 256
bit_and_byte v = omega (arith, bit_and_mask 8 v)

module _ (c : Config) where
  assign-IsBytes : (m : Mem) (n a v : ℕ) → IsBytes m → Ensures IsBytes (assign c m n a v)
  unfolding assign
  assign-IsBytes m n a v h =
      Ensures-if (leb (a + n) c.msize) (value (store_le-IsBytes n m a v h)) faults

  pmem_write-IsBytes :
      (m : Mem) (a len v : ℕ) → IsBytes m → Ensures IsBytes (pmem_write c m a len v)
  unfolding pmem_write host_write
  pmem_write-IsBytes m a len v h =
      let o = guest_to_host c a in
      Ensures-if (len == 1) (assign-IsBytes m 1 o v h) (
        Ensures-if (len == 2) (assign-IsBytes m 2 o v h) (
          Ensures-if (len == 4) (assign-IsBytes m 4 o v h)
            (Ensures-if (len == 8) (assign-IsBytes m 8 o v h) aborts)))

  dpi_mem_write-IsHost :
      (h : Host) (a v len : ℕ) → IsHost h → Ensures IsHost (dpi_mem_write c h a v len)
  unfolding dpi_mem_write
  dpi_mem_write-IsHost h a v len i =
      Ensures-if (a == uart_base)
        (value (record { pmem = i.pmem; console = (bit_and_byte v, i.console) }))
        (Ensures-if (in_dram c a)
          (Ensures->>= (pmem_write-IsBytes h.pmem a len v i.pmem)
            (λ m b. value (record { pmem = b; console = i.console })))
          (value i))

  -- `eval` keeps the host valid, whatever it calls.
  pub answer-IsHost :
      (d : Dut) (r : Reference) (e : Eval d.D) (h : Host)
      → IsHost h
      → Ensures (λ x. IsHost x.0) (answer c d r e h)
  unfolding answer dpi_ebreak dpi_read_regfile dpi_read_csrfile
  answer-IsHost d r (settled s) h i = value i
  answer-IsHost d r (instr_mem_read a k) h i =
      Ensures->>= (Ensures-any (dpi_instr_mem_read c h.pmem a)) (λ w u. answer-IsHost d r (k w) h i)
  answer-IsHost d r (mem_read a len k) h i =
      Ensures->>= (Ensures-any (dpi_mem_read c h.pmem a len)) (λ w u. answer-IsHost d r (k w) h i)
  answer-IsHost d r (mem_write a v len k) h i =
      Ensures->>= (dpi_mem_write-IsHost h a v len i) (λ h' i'. answer-IsHost d r k h' i')
  answer-IsHost d r (ebreak k) h i =
      answer-IsHost d r k (dpi_ebreak h) (record { pmem = i.pmem; console = i.console })
  answer-IsHost d r (read_regfile a k) h i =
      answer-IsHost d r k (dpi_read_regfile a h) (record { pmem = i.pmem; console = i.console })
  answer-IsHost d r (read_csrfile a k) h i =
      answer-IsHost d r k (dpi_read_csrfile a h) (record { pmem = i.pmem; console = i.console })
