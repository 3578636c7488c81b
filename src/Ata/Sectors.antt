-- ===== src/Ata/Sectors.antt =====
-- The loops of `ata_pio28_read` (kernel/drivers/ata/ata.c) over a drive that serves words.
use mike_os.Base.{
  ◌⊎◌, inl, inr, ℕ, zero, suc, ◌+◌, ◌*◌, ◌%◌, ◌≤◌, ◌<◌, ◌≡◌, refl, subst, arith, write,
}
use mike_os.PortAccess.{Ports, Run, bind-finished, finished, ◌>>◌}
use mike_os.Ata.{AtaDevice, ata_sleep, read_sectors, read_words}
use mike_os.Ata.Drive.{PioDrive}
use mike_os.Ata.Copied.{Copied, Copied-join, Copied-write}

module _ {S : Type 0} {ports : Ports S} {device : AtaDevice} {disk : ℕ → ℕ} {delay : ℕ}
    (drive : PioDrive ports device disk delay) where
  -- A run that took `count` words from p on to the place `at`, and left n; the drive is asked for the next
  -- one at most `limit` times.
  pub record IsRead (at p count n limit : ℕ) (buffer : ℕ → ℕ) (run : Run ((ℕ → ℕ) × S))
      : Type 0 where
    pub after : ℕ → ℕ
    pub machine : S
    pub returned : run ≡ finished (after, machine)
    pub copied : Copied disk at p count buffer after
    pub serving : drive.Serving (p + count) n machine
    pub soon : drive.pending machine ≤ limit

  pub moved :
      (s : S) (p p' n n' : ℕ) → p ≡ p' → n ≡ n' → drive.Serving p n s → drive.Serving p' n' s
  moved s p p' n n' same same' serving =
      subst (λ q. drive.Serving q n' s) same (subst (λ m. drive.Serving p m s) same' serving)

  read_words-IsRead :
      (at p n left : ℕ) (buffer : ℕ → ℕ) (s : S)
      → drive.Serving p (left + n) s
      → p % 256 + left ≤ 256
      → drive.pending s ≤ drive.between
      → (0 < left → drive.pending s ≡ 0)
      → IsRead at p left n drive.between buffer (read_words ports device at left buffer s)
  unfolding read_words
  read_words-IsRead at p n zero buffer s serving inside soon ready = record {
    after = buffer;
    machine = s;
    returned = refl;
    copied = ((λ k less. absurd (omega arith)), (λ j outside. refl));
    serving = moved s p (p + 0) (0 + n) n (omega arith) (omega arith) serving;
    soon = soon;
  }
  read_words-IsRead at p n (suc left) buffer s serving inside soon ready =
      let (word, served, soon', ready') =
        drive.serving-data s p (left + n)
          (moved s p p (suc left + n) (suc (left + n)) refl (omega arith) serving)
          (ready (omega arith)) in
      let rest =
        read_words-IsRead (at + 1) (suc p) n left
          (write buffer at (ports.reads_word (device.base + 0x0) s).0)
          (ports.reads_word (device.base + 0x0) s).1 served (omega arith) soon'
          (λ more. ready' (omega arith)) in
      record {
        after = rest.after;
        machine = rest.machine;
        returned = rest.returned;
        copied =
            Copied-join disk at p 1 (at + 1) (suc p) left (suc left) buffer _ rest.after refl
              (omega arith) (omega arith) (Copied-write disk at p _ buffer word) rest.copied;
        serving =
            moved rest.machine (suc p + left) (p + suc left) n n (omega arith) refl rest.serving;
        soon = rest.soon;
      }

  -- The four reads of `ata_sleep` are enough between two sectors for a drive that needs no more.
  ata_sleep-ready :
      (p n : ℕ) (s : S)
      → drive.Serving p n s
      → drive.pending s ≤ drive.between
      → (s' : S) × (ata_sleep ports device s ≡ finished (tt, s'))
        × drive.Serving p n s'
        × (drive.pending s' ≤ drive.between)
        × (drive.between ≤ 4 → drive.pending s' ≡ 0)
  unfolding ata_sleep
  ata_sleep-ready p n s serving soon =
      let (serving1, soon1) = drive.serving-alternate s p n serving in
      let (serving2, soon2) = drive.serving-alternate _ p n serving1 in
      let (serving3, soon3) = drive.serving-alternate _ p n serving2 in
      let (serving4, soon4) = drive.serving-alternate _ p n serving3 in
      (_, refl, serving4, omega arith, λ quick. omega arith)

  pub read_sectors-IsRead :
      (i p n left : ℕ) (buffer : ℕ → ℕ) (s : S)
      → drive.Serving p (left * 256 + n) s
      → p % 256 ≡ 0
      → drive.pending s ≤ drive.between
      → (0 < left → drive.pending s ≡ 0)
      → (left ≤ 1) ⊎ (drive.between ≤ 4)
      → IsRead
          (256 * i)
          p
          (left * 256)
          n
          drive.between
          buffer
          (read_sectors ports device i left buffer s)
  unfolding read_sectors
  read_sectors-IsRead i p n zero buffer s serving aligned soon ready quick = record {
    after = buffer;
    machine = s;
    returned = refl;
    copied = ((λ k less. absurd (omega arith)), (λ j outside. refl));
    serving = moved s p (p + 0) (0 + n) n (omega arith) (omega arith) serving;
    soon = soon;
  }
  read_sectors-IsRead i p n (suc left) buffer s serving aligned soon ready quick =
      let sector =
        read_words-IsRead (256 * i) p (left * 256 + n) 256 buffer s
          (moved s p p _ _ refl (omega arith) serving) (omega arith) soon
          (λ more. ready (omega arith)) in
      let (s', slept, serving', soon', ready') =
        ata_sleep-ready (p + 256) (left * 256 + n) sector.machine sector.serving sector.soon in
      let rest =
        read_sectors-IsRead (i + 1) (p + 256) n left sector.after s' serving' (omega arith) soon'
          (λ more. elim quick [ inl single ↦ absurd (omega arith) | inr short ↦ ready' short ])
          (elim quick [ inl single ↦ inl (omega arith) | inr short ↦ inr short ]) in
      record {
        after = rest.after;
        machine = rest.machine;
        returned =
            bind-finished (λ b. ata_sleep ports device >> read_sectors ports device (i + 1) left b)
              sector.returned
              (bind-finished (λ _. read_sectors ports device (i + 1) left sector.after) slept
                rest.returned);
        copied =
            Copied-join disk (256 * i) p 256 (256 * (i + 1)) (p + 256) (left * 256) (suc left * 256)
              buffer sector.after rest.after (omega arith) refl (omega arith) sector.copied
              rest.copied;
        serving = moved rest.machine _ _ n n (omega arith) refl rest.serving;
        soon = rest.soon;
      }
