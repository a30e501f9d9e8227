-- ===== src/Examples.antt =====
-- Runs of the modelled code on concrete inputs.
mod Query
mod Request
mod Queue
mod Sessions
mod Status
mod Topology
mod Mp4
mod Device
mod Ffmpeg
mod CodecCache
mod Pipeline
mod Response
mod Serving
mod Service
mod Quoting
mod Network
mod Launch
mod Process
mod Upgrade
mod Workers
mod Input
mod Config
