-- ===== src/Tests.antt =====
-- Instances of the theorems at concrete inputs, and runs of the modelled functions.
mod Decimal
mod SlotCases
mod TextCases
mod WorkerCases
mod PoolCases
mod HttpCases
mod TransferCases
mod ModuleCases
mod CommandCases
mod RaceCases
mod MountCases
